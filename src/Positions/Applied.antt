-- ===== src/Positions/Applied.antt =====
-- A whole request against the abstract view of the store: a map from names to points with a limit on how
-- many names it holds. The hash, the slots and the order of the probes are forgotten.
use legion_voice_mixer.Prelude.{
  ℕ, ◌+◌, ◌≡◌, refl, sym, ap, ◌∙◌, true, false, not, ◌&&◌, ◌||◌, List, [], ◌∷◌, Option, none, some,
  CString, leb, ltb, str_eq, arith, if◌then◌else◌, Bool-cases, Option-cases, inl, inr,
}
use mathlib.Core.Path.{fun_ext}
use legion_voice_mixer.Prelude.Int.{ℤ}
use legion_voice_mixer.Glib.{is_some}
use legion_voice_mixer.Positions.{store_max, PosEntry, PosBatch}
use legion_voice_mixer.Positions.Store.{
  Sim, Store, probe, cleared, store_at, Applied, apply_entry, apply_entries, store_apply,
}
use legion_voice_mixer.Positions.Probe.{slot}
use legion_voice_mixer.Positions.Invariant.{
  IsValid, probe_ends, get_or-cleared, cleared-IsValid, store_at-IsValid,
}
use legion_voice_mixer.Positions.Lookup.{point, point-store_at}

-- The abstract store, with the counts of a request.
pub record Known : Type 0 where
  pub find : CString → Option Sim
  pub names : ℕ
  pub stored : ℕ
  pub dropped : ℕ

-- An entry is known from then on, if its name was known already or there is room for another.
abbrev pub learn : PosEntry → ℤ → Known → Known
learn e now k =
    if is_some (k.find e.uuid) || ltb k.names store_max
    then record {
      find = λ u. if str_eq e.uuid u then some (record { e = e; recv_us = now }) else k.find u;
      names = if is_some (k.find e.uuid) then k.names else k.names + 1;
      stored = k.stored + 1;
      dropped = k.dropped;
    }
    else record k { dropped = k.dropped + 1 }

abbrev pub learn_all : List PosEntry → ℤ → Known → Known
learn_all [] now k = k
learn_all (e ∷ es) now k = learn_all es now (learn e now k)

abbrev pub known : Applied → Known
known a = record {
  find = point a.store;
  names = a.store.count;
  stored = a.stored;
  dropped = a.dropped;
}

module _ (e : PosEntry) (now : ℤ) (a : Applied) (v : IsValid a.store) (j : ℕ)
    (ends : probe a.store.slot e.uuid ≡ some j) where
  point-own : point a.store e.uuid ≡ slot a.store.slot j
  point-own = rw ends refl

  dropped_lem :
      (not (is_some (slot a.store.slot j)) && leb store_max a.store.count) ≡ true
      → (apply_entry e now a ≡ record a { dropped = a.dropped + 1 })
        × (learn e now (known a) ≡ record (known a) { dropped = a.dropped + 1 })
  unfolding apply_entry
  dropped_lem full =
      let unknown : (is_some (slot a.store.slot j) || ltb a.store.count store_max) ≡ false =
        ground (arith, full) in
      (rw (ends, apply_entry) (rw full refl), rw (point-own, unknown) refl)

  stored_lem :
      (not (is_some (slot a.store.slot j)) && leb store_max a.store.count) ≡ false
      → (apply_entry e now a ≡ record a { store = store_at j e now a.store; stored = a.stored + 1 })
  unfolding apply_entry
  stored_lem room = rw (ends, apply_entry) (rw room refl)

  abbrev with_points : (CString → Option Sim) → Known
  with_points f = record {
    find = f;
    names = if is_some (slot a.store.slot j) then a.store.count else a.store.count + 1;
    stored = a.stored + 1;
    dropped = a.dropped;
  }

  learn-store_at :
      (not (is_some (slot a.store.slot j)) && leb store_max a.store.count) ≡ false
      → known (record a { store = store_at j e now a.store; stored = a.stored + 1 })
        ≡ learn e now (known a)
  unfolding store_at
  learn-store_at room =
      let welcome : (is_some (slot a.store.slot j) || ltb a.store.count store_max) ≡ true =
        ground (arith, room) in
      rw (point-own, welcome)
        (ap with_points (fun_ext (point-store_at a.store e now j v ends room)))

pub apply_entry_lem :
    (e : PosEntry) (now : ℤ) (a : Applied)
    → IsValid a.store
    → IsValid (apply_entry e now a).store × (known (apply_entry e now a) ≡ learn e now (known a))
apply_entry_lem e now a v =
    let (j, ends, st, lt) = probe_ends a.store e.uuid v in
    elim (Bool-cases (not (is_some (slot a.store.slot j)) && leb store_max a.store.count)) [
      | inl full ↦ let (step, spec) = dropped_lem e now a v j ends full in rw step (v, sym spec)
      | inr room ↦
          rw (stored_lem e now a v j ends room)
            (store_at-IsValid a.store e now j v ends room, learn-store_at e now a v j ends room)
    ]

pub apply_entries_lem :
    (es : List PosEntry) (now : ℤ) (a : Applied)
    → IsValid a.store
    → IsValid (apply_entries es now a).store
      × (known (apply_entries es now a) ≡ learn_all es now (known a))
unfolding apply_entries
apply_entries_lem [] now a v = (v, refl)
apply_entries_lem (e ∷ es) now a v =
    let (w, step) = apply_entry_lem e now a v in
    let (x, rest) = apply_entries_lem es now (apply_entry e now a) w in
    (x, rest ∙ ap (learn_all es now) step)

abbrev nothing_but : (CString → Option Sim) → Known
nothing_but f = record { find = f; names = 0; stored = 0; dropped = 0 }

-- What a request starts from: a full one from nothing.
abbrev pub start : Store → PosBatch → Known
start st b =
    if b.full
    then record { find = λ u. none; names = 0; stored = 0; dropped = 0 }
    else record { find = point st; names = st.count; stored = 0; dropped = 0 }

pub point-cleared : (u : CString) → point cleared u ≡ none
point-cleared u = elim (Option-cases (probe cleared.slot u)) [
  | inl e ↦ rw e refl
  | inr (j, e) ↦ rw e (get_or-cleared j)
]

-- A request does to the table what it does to a map from names to points that holds at most 256 names: in
-- their order, each entry becomes its name's point, unless its name is new and the map is full, when it is
-- counted as dropped; a full request starts from the empty map. The table stays valid, so that no probe runs
-- without finding a slot.
pub store_apply-learn_all :
    (st : Store) (b : PosBatch) (now : ℤ)
    → IsValid st
    → IsValid (store_apply st b now).store
      × (known (store_apply st b now) ≡ learn_all b.entries now (start st b))
unfolding store_apply
store_apply-learn_all st b now v = elim (Bool-cases b.full) [
  | inl full ↦ rw full (
      let (w, e) =
        apply_entries_lem b.entries now (record { store = cleared; stored = 0; dropped = 0 })
          cleared-IsValid in
      (w, e ∙ ap (λ f. learn_all b.entries now (nothing_but f)) (fun_ext point-cleared)))
  | inr delta ↦
      rw delta (apply_entries_lem b.entries now (record { store = st; stored = 0; dropped = 0 }) v)
]
