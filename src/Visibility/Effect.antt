-- ===== src/Visibility/Effect.antt =====
-- What a parsed batch does to the sessions of its room, from the check to both channels.
use legion_voice_mixer.Prelude.{
  ℕ, ◌≡◌, refl, ap, sym, Bool, true, false, not, ◌&&◌, ◌||◌, ltb, leb, List, [], ◌∷◌, Option, some,
  CString, map, arith, if◌then◌else◌, ◌∙◌, Bool-cases, inl, inr,
}
use legion_voice_mixer.Prelude.Int.{ℤ}
use legion_voice_mixer.Glib.{StrSet, StrMap}
use legion_voice_mixer.Columns.{VisOp, col_has}
use legion_voice_mixer.Authority.{epoch_decide, authority_stale}
use legion_voice_mixer.Joincap.{is_string}
use legion_voice_mixer.Visibility.{
  Settings, VisEntry, VisBatch, VisRecord, Room, vis_enforced, stale_us,
}
use legion_voice_mixer.Visibility.Applied.{
  own_row, map-cong, map-map, kept_muted, kept_excluded, apply_visbatch-own_row,
  apply_mutebatch-own_row,
}
use legion_voice_mixer.Visibility.Authority.{
  no_outcome, named, Checking, vis_adopt, check_generation, batch_authority,
}
use legion_voice_mixer.Visibility.Settled.{check_all-settled}
use legion_voice_mixer.Visibility.Guard.{gen_of, is_same}
use legion_voice_mixer.Visibility.Kept.{participants-batch_authority, out-check_all}
use legion_voice_mixer.Visibility.Handle.{
  has_entries, excl_stage, mute_stage, apply_channels, handle_batch,
}

-- A channel without entries changes no row.
own_row_none :
    (skip : CString → Bool) (op : VisOp) (t : CString) (display : Option CString)
    (es : List VisEntry) (held : Bool)
    → has_entries es ≡ false
    → own_row skip op t display es held ≡ held
own_row_none skip op t display [] held h = refl
own_row_none skip op t display (e ∷ es) held h = cc

-- Entries that are all skipped for a display change none of its rows.
own_row-skipped :
    (skip : CString → Bool) (op : VisOp) (t k : CString) (es : List VisEntry) (held : Bool)
    → ((r : CString) → is_string (some k) r ≡ true → skip r ≡ true)
    → own_row skip op t (some k) es held ≡ held
own_row-skipped skip op t k [] held h = refl
own_row-skipped skip op t k (e ∷ es) held h =
    ground (arith, own_row-skipped skip op t k es held h, h e.listener)

module _ (sets : StrSet) (maps : StrMap (VisRecord sets)) (settings : Settings)
    (alloc : CString → Bool) (vb : VisBatch) (now vis_now end_us mute_now : ℤ) where
  excl_stage_lem :
      (skip : CString → Bool) (room : Room sets maps) (t : CString)
      → (map
            (λ l. sets.contains l.excluded t)
            (excl_stage sets maps settings alloc vb skip vis_now end_us room).room.participants
          ≡ map
              (λ l. own_row skip vb.op t l.display vb.entries (sets.contains l.excluded t))
              room.participants)
        × (map
              (kept_muted sets)
              (excl_stage sets maps settings alloc vb skip vis_now end_us room).room.participants
            ≡ map (kept_muted sets) room.participants)
  unfolding excl_stage
  excl_stage_lem skip room t = elim (Bool-cases (has_entries vb.entries)) [
    | inl h ↦ rw h (apply_visbatch-own_row sets maps settings alloc skip vis_now vb end_us room t)
    | inr h ↦ rw h (
      map-cong (λ l. sets.contains l.excluded t) _ room.participants
          (λ l.
            sym (own_row_none skip vb.op t l.display vb.entries (sets.contains l.excluded t) h)),
      refl,
    )
  ]

  mute_stage_lem :
      (skip : CString → Bool) (room : Room sets maps) (t : CString)
      → (map
            (λ l. sets.contains l.mod_muted t)
            (mute_stage sets maps settings alloc vb skip mute_now room).room.participants
          ≡ map
              (λ l. own_row skip vb.op t l.display vb.mute_entries (sets.contains l.mod_muted t))
              room.participants)
        × (map
              (kept_excluded sets)
              (mute_stage sets maps settings alloc vb skip mute_now room).room.participants
            ≡ map (kept_excluded sets) room.participants)
  unfolding mute_stage
  mute_stage_lem skip room t = elim (Bool-cases (has_entries vb.mute_entries)) [
    | inl h ↦ rw h (apply_mutebatch-own_row sets maps settings alloc skip mute_now vb room t)
    | inr h ↦ rw h (
      map-cong (λ l. sets.contains l.mod_muted t) _ room.participants
          (λ l.
            sym (
              own_row_none skip vb.op t l.display vb.mute_entries (sets.contains l.mod_muted t) h)),
      refl,
    )
  ]

  -- A batch that is not refused reaches every session of its room through both channels: a source is
  -- excluded, or muted, afterwards as the batch's entries for the session's display say in their order,
  -- apart from those of skipped listeners.
  pub handle_batch-own_row :
      (room : Room sets maps) (t : CString)
      → (batch_authority sets maps settings vb now room).out.refused ≡ false
      → (map
            (λ l. sets.contains l.excluded t)
            (handle_batch sets maps settings alloc vb now vis_now end_us mute_now
              room).room.participants
          ≡ map
              (λ l.
                own_row
                  (col_has (batch_authority sets maps settings vb now room).out.skip)
                  vb.op
                  t
                  l.display
                  vb.entries
                  (sets.contains l.excluded t))
              room.participants)
        × (map
              (λ l. sets.contains l.mod_muted t)
              (handle_batch sets maps settings alloc vb now vis_now end_us mute_now
                room).room.participants
            ≡ map
                (λ l.
                  own_row
                    (col_has (batch_authority sets maps settings vb now room).out.skip)
                    vb.op
                    t
                    l.display
                    vb.mute_entries
                    (sets.contains l.mod_muted t))
                room.participants)
  unfolding handle_batch apply_channels
  handle_batch-own_row room t accepted =
      let c = batch_authority sets maps settings vb now room in
      let skip = col_has c.out.skip in
      let excl = excl_stage sets maps settings alloc vb skip vis_now end_us c.room in
      let mute = mute_stage sets maps settings alloc vb skip mute_now excl.room in
      let rows_excl = λ (x : ℕ × Option CString × sets.Keys). sets.contains x.2 t in
      let rows_mute = λ (x : ℕ × Option CString × sets.Keys).
        own_row skip vb.op t x.1 vb.mute_entries (sets.contains x.2 t) in
      let (e, m) = excl_stage_lem skip c.room t in
      let (f, n) = mute_stage_lem skip excl.room t in
      rw accepted (
        sym (map-map rows_excl (kept_excluded sets) mute.room.participants)
            ∙ ap (map rows_excl) n
            ∙ map-map rows_excl (kept_excluded sets) excl.room.participants
            ∙ e
            ∙ ap (map (λ l. own_row skip vb.op t l.display vb.entries (sets.contains l.excluded t)))
                (participants-batch_authority sets maps settings vb now room),
        f
            ∙ sym (map-map rows_mute (kept_muted sets) excl.room.participants)
            ∙ ap (map rows_mute) m
            ∙ map-map rows_mute (kept_muted sets) c.room.participants
            ∙ ap
                (map (λ l.
                  own_row skip vb.op t l.display vb.mute_entries (sets.contains l.mod_muted t)))
                (participants-batch_authority sets maps settings vb now room),
      )

  -- Is the batch stamped by an older epoch than the room's fresh authority, or by a generation that is not
  -- above the room's, or above zero where the epoch is new to the room?
  abbrev pub is_outdated : Room sets maps → Bool
  is_outdated room =
      vb.has_epoch
      && (ltb vb.room_epoch room.vis_auth_epoch
            && not (authority_stale room.vis_auth_last_us now (stale_us settings))
          || leb (gen_of sets maps settings vb)
              (if is_same sets maps settings vb.room_epoch room then room.vis_policy_gen else 0))

  -- A batch is refused exactly when fail-closed is in force and the batch is outdated: stamped by a lower
  -- epoch than that of an authority that is fresh, or by a generation that is not above the room's in that
  -- epoch, or not above zero in an epoch that is new to the room. A refused batch changes no session and no deferred column, and nobody is told anything.
  pub handle_batch-refused :
      (room : Room sets maps)
      → ((batch_authority sets maps settings vb now room).out.refused
          ≡ (vis_enforced sets maps settings room && is_outdated room))
        × (if vis_enforced sets maps settings room && is_outdated room
            then ((handle_batch sets maps settings alloc vb now vis_now end_us mute_now
                  room).room.participants
                ≡ room.participants)
              × ((handle_batch sets maps settings alloc vb now vis_now end_us mute_now
                    room).room.vis_deferred
                  ≡ room.vis_deferred)
              × ((handle_batch sets maps settings alloc vb now vis_now end_us mute_now room).told
                  ≡ [])
            else Unit {0})
  unfolding handle_batch batch_authority check_generation vis_adopt epoch_decide
  handle_batch-refused room =
      let enforced = vis_enforced sets maps settings room in
      let adopted = (vis_adopt sets maps settings vb.room_epoch now room).0 in
      let v = (vis_adopt sets maps settings vb.room_epoch now room).1 in
      let c : Checking sets maps settings = record {
        room = record adopted { vis_policy_gen = gen_of sets maps settings vb };
        out = record no_outcome { verdict = v };
      } in
      let ks = sets.keys (named sets vb) in
      let (_, _, _, _, r, _) =
        check_all-settled sets maps settings enforced vb (gen_of sets maps settings vb) now [] ks
          c in
      ground (
        arith,
        r,
        out-check_all sets maps settings enforced vb (gen_of sets maps settings vb) now ks c,
      )
