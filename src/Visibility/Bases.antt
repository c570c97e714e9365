-- ===== src/Visibility/Bases.antt =====
-- An add or a remove against the base that the batch claims: a listener whose record does not match is
-- answered as stale, and its record waits for a replace.
use legion_voice_mixer.Prelude.{
  ℕ, ◌≡◌, refl, ◌∙◌, if◌then◌else◌, Bool, true, false, not, ◌&&◌, ◌||◌, [], ◌∷◌, Option, none, some,
  CString, str_eq, str_eq_iff, ◌==◌, arith, Option-cases, inl, inr,
}
use legion_voice_mixer.Prelude.Int.{ℤ}
use legion_voice_mixer.Glib.{StrSet, StrMap, map_option}
use legion_voice_mixer.Columns.{Column, col_has}
use legion_voice_mixer.Columns.Laws.{col_has-append}
use legion_voice_mixer.Visibility.{Settings, VisBatch, VisRecord, Room, vis_enforced}
use legion_voice_mixer.Visibility.Batch.{is_replace}
use legion_voice_mixer.Visibility.Authority.{
  no_outcome, named, Checking, vis_adopt, check_generation, batch_authority, check_listener,
  advance, advance_listener, find_base, base_is,
}
use legion_voice_mixer.Visibility.Settled.{check_all, lookup-cong}
use legion_voice_mixer.Visibility.Guard.{in_order, gen_of}

module _ (sets : StrSet) (maps : StrMap (VisRecord sets)) (settings : Settings) where
  open maps use {lookup, lookup_insert}

  -- Is the record of the current epoch, and of the generation that the batch builds on?
  abbrev pub matches : VisBatch → CString → ℕ → Option (VisRecord sets) → Bool
  matches vb k epoch none = false
  matches vb k epoch (some r) = r.epoch == epoch && base_is (find_base vb.base k) r.listener_gen

  abbrev unfit : VisBatch → CString → Checking sets maps settings → Bool
  unfit vb k c = not (matches vb k c.room.vis_auth_epoch (lookup c.room.vis_records k))

  abbrev pub marked : VisRecord sets → VisRecord sets
  marked r = record r { stale = true }

  abbrev record_of : CString → Checking sets maps settings → Option (VisRecord sets)
  record_of k c = lookup c.room.vis_records k

  -- The check of listeners keeps one that does not match so, and marks and answers it if it is among them.
  abbrev Answers :
      VisBatch → CString → Bool → Checking sets maps settings → Checking sets maps settings → Type 0
  Answers vb k among c c' =
      (unfit vb k c' ≡ true)
      × (record_of k c' ≡ (if among then map_option marked (record_of k c) else record_of k c))
      × ((among || col_has c.out.stale k) ≡ true → col_has c'.out.stale k ≡ true)

  advance_listener-Answers :
      (enforced : Bool) (vb : VisBatch) (gen : ℕ) (now : ℤ) (s k : CString)
      (c : Checking sets maps settings)
      → unfit vb k c ≡ true
      → Answers vb k (str_eq s k) c (advance_listener sets maps settings enforced vb gen now s c)
  unfolding advance_listener col_has
  advance_listener-Answers enforced vb gen now s k c h =
      elim (Option-cases (lookup c.room.vis_records s)) [
        | inl n ↦ ground (
          arith,
          n,
          h,
          str_eq_iff s k,
          lookup-cong sets maps settings c.room.vis_records s k,
          col_has-append c.out.stale (s ∷ []) k,
        )
        | inr (r, e) ↦
            let v = advance sets maps settings vb s gen now r in
            let w = record r { stale = true } in
            ground (
              arith,
              e,
              h,
              str_eq_iff s k,
              lookup_insert c.room.vis_records s k v,
              lookup_insert c.room.vis_records s k w,
              lookup-cong sets maps settings c.room.vis_records s k,
              col_has-append c.out.stale (s ∷ []) k,
            )
      ]

  check_listener-Answers :
      (enforced : Bool) (vb : VisBatch) (gen : ℕ) (now : ℤ) (s k : CString)
      (c : Checking sets maps settings)
      → is_replace vb.op ≡ false
      → unfit vb k c ≡ true
      → Answers vb k (str_eq s k) c (check_listener sets maps settings enforced vb gen now s c)
  unfolding check_listener
  check_listener-Answers enforced vb gen now s k c delta h =
      rw delta (advance_listener-Answers enforced vb gen now s k c h)

  marked_twice :
      (a b : Bool) (o p : Option (VisRecord sets))
      → p ≡ (if a then map_option marked o else o)
      → (if b then map_option marked p else p) ≡ (if a || b then map_option marked o else o)
  marked_twice a b o p h = ground (arith, h)

  check_all-Answers :
      (enforced : Bool) (vb : VisBatch) (gen : ℕ) (now : ℤ) (k : CString) (ks : Column)
      (c : Checking sets maps settings)
      → is_replace vb.op ≡ false
      → unfit vb k c ≡ true
      → Answers vb k (col_has ks k) c (check_all sets maps settings enforced vb gen now ks c)
  unfolding col_has
  check_all-Answers enforced vb gen now k [] c delta h = ground (arith, h)
  check_all-Answers enforced vb gen now k (s ∷ ks) c delta h =
      let step = check_listener sets maps settings enforced vb gen now s c in
      let (u, m, a) = check_listener-Answers enforced vb gen now s k c delta h in
      let (w, n, b) = check_all-Answers enforced vb gen now k ks step delta u in
      (
        w,
        n ∙ marked_twice (str_eq s k) (col_has ks k) (record_of k c) (record_of k step) m,
        λ t. ground (arith, a, b, t),
      )

  -- An add or a remove, stamped and in order, never advances a listener whose record is missing, of another
  -- epoch or of another generation than the base that the batch claims for it: the listener is answered as
  -- stale, its record, if there is one, is as it was, but stale, and it still does not match that base.
  pub batch_authority-stale :
      (vb : VisBatch) (now : ℤ) (room : Room sets maps) (k : CString)
      → vb.has_epoch ≡ true
      → is_replace vb.op ≡ false
      → in_order sets maps settings (batch_authority sets maps settings vb now room) ≡ true
      → sets.contains (named sets vb) k ≡ true
      → matches vb k
          (vis_adopt sets maps settings vb.room_epoch now room).0.vis_auth_epoch
          (lookup (vis_adopt sets maps settings vb.room_epoch now room).0.vis_records k)
        ≡ false
      → (col_has (batch_authority sets maps settings vb now room).out.stale k ≡ true)
        × (lookup (batch_authority sets maps settings vb now room).room.vis_records k
            ≡ map_option marked
                (lookup (vis_adopt sets maps settings vb.room_epoch now room).0.vis_records k))
        × (matches vb k
              (batch_authority sets maps settings vb now room).room.vis_auth_epoch
              (lookup (batch_authority sets maps settings vb now room).room.vis_records k)
            ≡ false)
  unfolding batch_authority check_generation
  batch_authority-stale vb now room k stamped delta ok names differs =
      let enforced = vis_enforced sets maps settings room in
      let adopted = (vis_adopt sets maps settings vb.room_epoch now room).0 in
      let v = (vis_adopt sets maps settings vb.room_epoch now room).1 in
      let gen = gen_of sets maps settings vb in
      let c : Checking sets maps settings = record {
        room = record adopted { vis_policy_gen = gen };
        out = record no_outcome { verdict = v };
      } in
      let (u, m, a) =
        check_all-Answers enforced vb gen now k (sets.keys (named sets vb)) c delta
          (rw differs refl) in
      ground (arith, u, m, a, names, sets.has_keys (named sets vb) k, stamped, ok)
