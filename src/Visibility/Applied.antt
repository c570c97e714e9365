-- ===== src/Visibility/Applied.antt =====
-- What a batch leaves in a room: in the sets of every session, and in the store of deferred columns.
use legion_voice_mixer.Prelude.{
  ℕ, ◌≡◌, refl, ap, ◌∙◌, Bool, true, false, not, ◌&&◌, ◌||◌, List, [], ◌∷◌, Option, CString, map,
  arith, if◌then◌else◌,
}
use legion_voice_mixer.Prelude.Int.{ℤ}
use legion_voice_mixer.Glib.{StrSet, StrMap}
use legion_voice_mixer.Columns.{VisOp, col_has}
use legion_voice_mixer.Columns.Laws.{merged}
use legion_voice_mixer.Joincap.{is_string}
use legion_voice_mixer.Visibility.{Settings, VisEntry, VisBatch, Told, VisRecord, Member, Room}
use legion_voice_mixer.Visibility.Channels.{update_excluded, update_muted}
use legion_voice_mixer.Visibility.Merge.{contains-update_excluded, contains-update_muted}
use legion_voice_mixer.Visibility.Batch.{
  Progress, scan, by_display, exclude_in, mute_in, excl_step, mute_step, for_entries, start,
  apply_visbatch, apply_mutebatch,
}

module _ {ℓ κ} {A : Type ℓ} {B : Type κ} where
  pub map-cong : (f g : A → B) (xs : List A) → ((a : A) → f a ≡ g a) → map f xs ≡ map g xs
  map-cong f g [] h = refl
  map-cong f g (x ∷ xs) h = rw (h x, map-cong f g xs h)

  pub map-map {μ} :
      {C : Type μ} (g : B → C) (f : A → B) (xs : List A) → map g (map f xs) ≡ map (λ a. g (f a)) xs
  map-map g f [] = refl
  map-map g f (x ∷ xs) = rw (map-map g f xs)

module _ {ℓ} {A : Type ℓ} where
  map_id : (xs : List A) → map (λ a. a) xs ≡ xs
  map_id [] = refl
  map_id (x ∷ xs) = rw (map_id xs)

-- What the entries of a batch make of one listener's row for one source: the operation, once for each
-- entry that names the listener's display and is not skipped.
abbrev pub own_row :
    (CString → Bool) → VisOp → CString → Option CString → List VisEntry → Bool → Bool
own_row skip op t display [] held = held
own_row skip op t display (e ∷ es) held = own_row skip op t display es (
    if not (skip e.listener) && is_string display e.listener
    then merged op held (col_has e.excl t)
    else held)

module _ (sets : StrSet) where
  -- What the exclusion channel keeps of a session, and what the mute channel keeps.
  abbrev pub kept_muted : Member sets → ℕ × Option CString × sets.Keys
  kept_muted l = (l.user_id, l.display, l.mod_muted)

  abbrev pub kept_excluded : Member sets → ℕ × Option CString × sets.Keys
  kept_excluded l = (l.user_id, l.display, l.excluded)

module _ (sets : StrSet) (skip : CString → Bool) where
  -- The change of an entry to one session, where `change` is the merge.
  abbrev pub touch : (VisEntry → Member sets → Member sets) → VisEntry → Member sets → Member sets
  touch change e l =
      if not (skip e.listener) && is_string l.display e.listener then change e l else l

  abbrev pub touched :
      (VisEntry → Member sets → Member sets) → List VisEntry → Member sets → Member sets
  touched change [] l = l
  touched change (e ∷ es) l = touched change es (touch change e l)

  touch_absent :
      (change : VisEntry → Member sets → Member sets) (e : VisEntry) (ls : List (Member sets))
      → (skip e.listener || not (by_display sets ls e.listener)) ≡ true
      → map (touch change e) ls ≡ ls
  touch_absent change e [] h = refl
  touch_absent change e (l ∷ ls) h = ground (arith, touch_absent change e ls)

  scan-map :
      (change : VisEntry → Member sets → Member sets) (both : Member sets → Member sets × List Told)
      (e : VisEntry) (ls : List (Member sets))
      → ((l : Member sets) → (both l).0 ≡ change e l)
      → skip e.listener ≡ false
      → (scan sets both e.listener ls).0 ≡ map (touch change e) ls
  unfolding scan
  scan-map change both e [] same named = refl
  scan-map change both e (l ∷ ls) same named =
      ground (arith, scan-map change both e ls same named, same l)

  abbrev pub excl_change : (CString → Bool) → VisOp → VisEntry → Member sets → Member sets
  excl_change present op e l = record l {
    excluded = (update_excluded sets present op e.excl l.excluded).held;
  }

  abbrev pub mute_change : VisOp → VisEntry → Member sets → Member sets
  mute_change op e l = record l { mod_muted = (update_muted sets op e.excl l.mod_muted).held }

  contains-touched_excl :
      (present : CString → Bool) (op : VisOp) (t : CString) (es : List VisEntry) (l : Member sets)
      → sets.contains (touched (excl_change present op) es l).excluded t
        ≡ own_row skip op t l.display es (sets.contains l.excluded t)
  contains-touched_excl present op t [] l = refl
  contains-touched_excl present op t (e ∷ es) l = ground (
    arith,
    contains-touched_excl present op t es (touch (excl_change present op) e l),
    contains-update_excluded sets present op e.excl l.excluded t,
  )

  contains-touched_mute :
      (op : VisOp) (t : CString) (es : List VisEntry) (l : Member sets)
      → sets.contains (touched (mute_change op) es l).mod_muted t
        ≡ own_row skip op t l.display es (sets.contains l.mod_muted t)
  contains-touched_mute op t [] l = refl
  contains-touched_mute op t (e ∷ es) l = ground (
    arith,
    contains-touched_mute op t es (touch (mute_change op) e l),
    contains-update_muted sets op e.excl l.mod_muted t,
  )

  mod_muted-touched :
      (present : CString → Bool) (op : VisOp) (es : List VisEntry) (l : Member sets)
      → kept_muted sets (touched (excl_change present op) es l) ≡ kept_muted sets l
  mod_muted-touched present op [] l = refl
  mod_muted-touched present op (e ∷ es) l =
      ground (arith, mod_muted-touched present op es (touch (excl_change present op) e l))

  excluded-touched :
      (op : VisOp) (es : List VisEntry) (l : Member sets)
      → kept_excluded sets (touched (mute_change op) es l) ≡ kept_excluded sets l
  excluded-touched op [] l = refl
  excluded-touched op (e ∷ es) l =
      ground (arith, excluded-touched op es (touch (mute_change op) e l))

module _ (sets : StrSet) (maps : StrMap (VisRecord sets)) (settings : Settings)
    (alloc skip : CString → Bool) (vis_now : ℤ) where
  participants-excl_step :
      (present : CString → Bool) (op : VisOp) (e : VisEntry) (p : Progress sets maps settings)
      → (excl_step sets maps settings alloc skip present vis_now op e p).room.participants
        ≡ map (touch sets skip (excl_change sets skip present op) e) p.room.participants
  unfolding excl_step
  participants-excl_step present op e p = ground (
    arith,
    touch_absent sets skip (excl_change sets skip present op) e p.room.participants,
    scan-map sets skip (excl_change sets skip present op)
        (exclude_in sets maps settings present p.room vis_now op e) e p.room.participants
        (λ l. refl),
  )

  participants-for_entries :
      (step : VisEntry → Progress sets maps settings → Progress sets maps settings)
      (change : VisEntry → Member sets → Member sets) (es : List VisEntry)
      (p : Progress sets maps settings)
      → ((e : VisEntry) (q : Progress sets maps settings)
          → (step e q).room.participants ≡ map (touch sets skip change e) q.room.participants)
      → (for_entries sets maps settings step es p).room.participants
        ≡ map (touched sets skip change es) p.room.participants
  unfolding for_entries
  participants-for_entries step change [] p h = rw (map_id p.room.participants)
  participants-for_entries step change (e ∷ es) p h =
      participants-for_entries step change es (step e p) h
      ∙ ap (map (touched sets skip change es)) (h e p)
      ∙ map-map (touched sets skip change es) (touch sets skip change e) p.room.participants

  participants-mute_step :
      (op : VisOp) (e : VisEntry) (p : Progress sets maps settings)
      → (mute_step sets maps settings alloc skip vis_now op e p).room.participants
        ≡ map (touch sets skip (mute_change sets skip op) e) p.room.participants
  unfolding mute_step
  participants-mute_step op e p = ground (
    arith,
    touch_absent sets skip (mute_change sets skip op) e p.room.participants,
    scan-map sets skip (mute_change sets skip op) (mute_in sets maps settings p.room vis_now op e) e
        p.room.participants (λ l. refl),
  )

  -- A batch changes every session whose display one of its entries names, and no other: session by
  -- session, a source is excluded afterwards as the entries for that display say in their order, skipped
  -- ones apart; displays and moderation mutes stay as they were.
  pub apply_visbatch-own_row :
      (vb : VisBatch) (end_us : ℤ) (room : Room sets maps) (t : CString)
      → (map
            (λ l. sets.contains l.excluded t)
            (apply_visbatch sets maps settings alloc vb skip vis_now end_us room).room.participants
          ≡ map
              (λ l. own_row skip vb.op t l.display vb.entries (sets.contains l.excluded t))
              room.participants)
        × (map
              (kept_muted sets)
              (apply_visbatch sets maps settings alloc vb skip vis_now end_us
                room).room.participants
            ≡ map (kept_muted sets) room.participants)
  unfolding apply_visbatch
  apply_visbatch-own_row vb end_us room t =
      let present = by_display sets room.participants in
      let change = excl_change sets skip present vb.op in
      let e =
        participants-for_entries (excl_step sets maps settings alloc skip present vis_now vb.op)
          change vb.entries (start sets maps settings room)
          (participants-excl_step present vb.op) in
      (
        ap (map (λ l. sets.contains l.excluded t)) e
            ∙ map-map (λ l. sets.contains l.excluded t) (touched sets skip change vb.entries)
                room.participants
            ∙ map-cong _ _ room.participants
                (contains-touched_excl sets skip present vb.op t vb.entries),
        ap (map (kept_muted sets)) e
            ∙ map-map (kept_muted sets) (touched sets skip change vb.entries) room.participants
            ∙ map-cong _ _ room.participants (mod_muted-touched sets skip present vb.op vb.entries),
      )

  -- The moderation-mute channel does the same to the moderation mutes, and never changes whom a session
  -- excludes.
  pub apply_mutebatch-own_row :
      (vb : VisBatch) (room : Room sets maps) (t : CString)
      → (map
            (λ l. sets.contains l.mod_muted t)
            (apply_mutebatch sets maps settings alloc vb skip vis_now room).room.participants
          ≡ map
              (λ l. own_row skip vb.op t l.display vb.mute_entries (sets.contains l.mod_muted t))
              room.participants)
        × (map
              (kept_excluded sets)
              (apply_mutebatch sets maps settings alloc vb skip vis_now room).room.participants
            ≡ map (kept_excluded sets) room.participants)
  unfolding apply_mutebatch
  apply_mutebatch-own_row vb room t =
      let change = mute_change sets skip vb.op in
      let e =
        participants-for_entries (mute_step sets maps settings alloc skip vis_now vb.op) change
          vb.mute_entries (start sets maps settings room) (participants-mute_step vb.op) in
      (
        ap (map (λ l. sets.contains l.mod_muted t)) e
            ∙ map-map (λ l. sets.contains l.mod_muted t) (touched sets skip change vb.mute_entries)
                room.participants
            ∙ map-cong _ _ room.participants
                (contains-touched_mute sets skip vb.op t vb.mute_entries),
        ap (map (kept_excluded sets)) e
            ∙ map-map (kept_excluded sets) (touched sets skip change vb.mute_entries)
                room.participants
            ∙ map-cong _ _ room.participants (excluded-touched sets skip vb.op vb.mute_entries),
      )
