-- ===== src/Visibility/Deferral.antt =====
-- The entries of a batch whose listener has no session in the room: none is lost, each is one deposit.
use legion_voice_mixer.Prelude.{
  ◌+◌, ◌%◌, ◌^◌, ◌<◌, ◌≡◌, refl, ◌∙◌, Bool, true, false, ◌||◌, List, [], ◌∷◌, CString, length,
  arith, if◌then◌else◌,
}
use legion_voice_mixer.Prelude.Int.{ℤ}
use legion_voice_mixer.Glib.{StrSet, StrMap}
use legion_voice_mixer.Columns.{VisOp}
use legion_voice_mixer.Deferred.{put}
use legion_voice_mixer.Deferred.History.{Deposit, deposits}
use legion_voice_mixer.Visibility.{Settings, VisEntry, VisBatch, Told, VisRecord, Member, Room}
use legion_voice_mixer.Visibility.Batch.{
  Progress, scan, by_display, exclude_in, mute_in, excl_step, mute_step, for_entries, start,
  apply_visbatch, apply_mutebatch,
}

-- The deposits of a channel: its entries that are neither skipped nor for a display in the room.
abbrev pub deferrals :
    (CString → Bool)
    → (CString → Bool)
    → (CString → Bool)
    → VisOp
    → Bool
    → List VisEntry
    → List Deposit
deferrals alloc skip present op is_mute [] = []
deferrals alloc skip present op is_mute (e ∷ es) =
    let rest = deferrals alloc skip present op is_mute es in
    if skip e.listener || present e.listener
    then rest
    else record {
      alloc = alloc e.listener;
      listener = e.listener;
      op = op;
      src = e.excl;
      is_mute = is_mute;
    }
      ∷ rest

module _ (sets : StrSet) where
  scan-by_display :
      (change : Member sets → Member sets × List Told) (listener s : CString)
      (ls : List (Member sets))
      → ((l : Member sets) → (change l).0.display ≡ l.display)
      → by_display sets (scan sets change listener ls).0 s ≡ by_display sets ls s
  unfolding scan
  scan-by_display change listener s [] h = refl
  scan-by_display change listener s (l ∷ ls) h =
      ground (arith, scan-by_display change listener s ls h, h l)

module _ (sets : StrSet) (maps : StrMap (VisRecord sets)) (settings : Settings)
    (alloc skip : CString → Bool) (vis_now : ℤ) where
  -- A step is a deposit or none, and the set of displays in the room stays.
  abbrev Defers :
      Bool → VisOp → VisEntry → Progress sets maps settings → Progress sets maps settings → Type 0
  Defers is_mute op e p q =
      ((s : CString)
        → by_display sets q.room.participants s ≡ by_display sets p.room.participants s)
      × (if skip e.listener || by_display sets p.room.participants e.listener
          then (q.room.vis_deferred ≡ p.room.vis_deferred) × (q.count ≡ p.count)
          else (q.room.vis_deferred
              ≡ put (alloc e.listener) p.room.vis_deferred e.listener op e.excl is_mute)
            × (q.count ≡ (p.count + 1) % 2 ^ 64))

  excl_step-Defers :
      (present : CString → Bool) (op : VisOp) (e : VisEntry) (p : Progress sets maps settings)
      → Defers false op e p (excl_step sets maps settings alloc skip present vis_now op e p)
  unfolding excl_step
  excl_step-Defers present op e p = (
    λ s. ground (
      arith,
      scan-by_display sets (exclude_in sets maps settings present p.room vis_now op e) e.listener s
          p.room.participants (λ l. refl),
    ),
    ground arith,
  )

  mute_step-Defers :
      (op : VisOp) (e : VisEntry) (p : Progress sets maps settings)
      → Defers true op e p (mute_step sets maps settings alloc skip vis_now op e p)
  unfolding mute_step
  mute_step-Defers op e p = (
    λ s. ground (
      arith,
      scan-by_display sets (mute_in sets maps settings p.room vis_now op e) e.listener s
          p.room.participants (λ l. refl),
    ),
    ground arith,
  )

  Defers-for_entries :
      (step : VisEntry → Progress sets maps settings → Progress sets maps settings) (is_mute : Bool)
      (op : VisOp) (present : CString → Bool) (es : List VisEntry) (p : Progress sets maps settings)
      → ((e : VisEntry) (q : Progress sets maps settings) → Defers is_mute op e q (step e q))
      → ((s : CString) → by_display sets p.room.participants s ≡ present s)
      → p.count < 2 ^ 64
      → ((for_entries sets maps settings step es p).room.vis_deferred
          ≡ deposits p.room.vis_deferred (deferrals alloc skip present op is_mute es))
        × ((for_entries sets maps settings step es p).count
            ≡ (p.count + length (deferrals alloc skip present op is_mute es)) % 2 ^ 64)
  unfolding for_entries deposits
  Defers-for_entries step is_mute op present [] p h same small = (refl, ground arith)
  Defers-for_entries step is_mute op present (e ∷ es) p h same small =
      let (keep, d) = h e p in
      let rest =
        Defers-for_entries step is_mute op present es (step e p) h (λ s. keep s ∙ same s)
          (ground (arith, d)) in
      ground (arith, rest, d, same e.listener)

  -- A batch loses no exclusion entry: the store afterwards is the store before with one deposit for each
  -- entry that is neither skipped nor for a display in the room, in the batch's order, and that many are
  -- reported, modulo 2^64.
  pub apply_visbatch-deferrals :
      (vb : VisBatch) (end_us : ℤ) (room : Room sets maps)
      → ((apply_visbatch sets maps settings alloc vb skip vis_now end_us room).room.vis_deferred
          ≡ deposits room.vis_deferred
              (deferrals alloc skip (by_display sets room.participants) vb.op false vb.entries))
        × ((apply_visbatch sets maps settings alloc vb skip vis_now end_us room).count
            ≡ length
                (deferrals alloc skip (by_display sets room.participants) vb.op false vb.entries)
              % 2 ^ 64)
  unfolding apply_visbatch
  apply_visbatch-deferrals vb end_us room =
      let present = by_display sets room.participants in
      let d =
        Defers-for_entries (excl_step sets maps settings alloc skip present vis_now vb.op) false
          vb.op present vb.entries (start sets maps settings room) (excl_step-Defers present vb.op)
          (λ s. refl) (omega arith) in
      (d.0, ground (arith, d.1))

  -- Nor does it lose an entry of the moderation-mute channel.
  pub apply_mutebatch-deferrals :
      (vb : VisBatch) (room : Room sets maps)
      → ((apply_mutebatch sets maps settings alloc vb skip vis_now room).room.vis_deferred
          ≡ deposits room.vis_deferred
              (deferrals alloc skip (by_display sets room.participants) vb.op true vb.mute_entries))
        × ((apply_mutebatch sets maps settings alloc vb skip vis_now room).count
            ≡ length (
                deferrals alloc skip (by_display sets room.participants) vb.op true vb.mute_entries)
              % 2 ^ 64)
  unfolding apply_mutebatch
  apply_mutebatch-deferrals vb room =
      let present = by_display sets room.participants in
      let d =
        Defers-for_entries (mute_step sets maps settings alloc skip vis_now vb.op) true vb.op
          present vb.mute_entries (start sets maps settings room) (mute_step-Defers vb.op)
          (λ s. refl) (omega arith) in
      (d.0, ground (arith, d.1))
