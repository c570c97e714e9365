-- ===== src/Positions/Invariant.antt =====
-- The invariant of the table of points: it is never full, and every point stands where the probe for its
-- name stops.
use legion_voice_mixer.Prelude.{
  some_inj, some_absurd, ℕ, suc, ◌+◌, ◌-◌, ◌%◌, ◌≤◌, ◌<◌, ◌≡◌, ◌≢◌, refl, sym, ◌∙◌, subst, str_eq,
  eq_of_str_eq, zero, true, false, not, ◌&&◌, [], ◌∷◌, none, some, CString, length, leb, set,
  replicate, length-set, arith, if◌then◌else◌, Bool-cases, Option-cases, inl, inr,
}
use native.Mathlib.Decide.{ℕ_discrete}
use legion_voice_mixer.Prelude.Int.{ℤ}
use legion_voice_mixer.Glib.{is_some}
use legion_voice_mixer.Positions.{slots, store_max, PosEntry}
use legion_voice_mixer.Positions.Store.{
  Sim, Slots, Store, place, stops, probe_from, pos_hash, probe, cleared, store_at,
}
use legion_voice_mixer.Positions.Probe.{
  get_or-set_self, get_or-set_ne, slot, probe_from-stops, probe_from-set_self, probe_from-set_other,
}

-- How many slots are used.
abbrev pub used : Slots → ℕ
used [] = 0
used (o ∷ table) = if is_some o then suc (used table) else used table

used-set :
    (table : Slots) (j : ℕ) (s : Sim)
    → j < length table
    → used (set table j (some s)) ≡ (if is_some (slot table j) then used table else used table + 1)
used-set [] j s h = absurd (omega arith)
used-set (o ∷ table) zero s h = ground arith
used-set (o ∷ table) (suc j) s h = ground (arith, used-set table j s (omega arith))

used_all :
    (table : Slots)
    → ((j : ℕ) → j < length table → is_some (slot table j) ≡ true)
    → used table ≡ length table
used_all [] h = refl
used_all (o ∷ table) h =
    ground (arith, h 0 (omega arith), used_all table (λ j l. h (suc j) (omega arith)))

used-replicate : (n : ℕ) → used (replicate n none) ≡ 0
used-replicate zero = refl
used-replicate (suc n) = used-replicate n

-- A probe that finds no slot has met a used one at every round.
probe_from_full :
    (table : Slots) (u : CString) (h i left n : ℕ)
    → probe_from table u h i left ≡ none
    → i ≤ n
    → n < i + left
    → is_some (slot table (place h n)) ≡ true
unfolding probe_from stops
probe_from_full table u h i zero n e l m = absurd (omega arith)
probe_from_full table u h i (suc left) n e l m =
    ground (arith, probe_from_full table u h (suc i) left n)

-- The rounds of a probe reach every slot.
abbrev round_of : ℕ → ℕ → ℕ
round_of h j = (j + slots - h % slots) % slots

place-round_of : (h j : ℕ) → j < slots → place h (round_of h j) ≡ j
unfolding place
place-round_of h j l = omega arith

pub record IsValid (st : Store) : Type 0 where
  pub sized : length st.slot ≡ slots
  pub counted : st.count ≡ used st.slot
  pub bounded : st.count ≤ store_max
  pub placed : (j : ℕ) (s : Sim) → slot st.slot j ≡ some s → probe st.slot s.e.uuid ≡ some j

-- The probe of a valid store always ends at a slot.
pub probe_ends :
    (st : Store) (u : CString)
    → IsValid st
    → (j : ℕ) × (probe st.slot u ≡ some j) × (stops u (slot st.slot j) ≡ true) × (j < slots)
unfolding probe
probe_ends st u v = elim (Option-cases (probe st.slot u)) [
  | inl e ↦
      let all_used = used_all st.slot (λ j l.
        let l' : j < slots = omega (arith, v.sized) in
        let p =
          probe_from_full st.slot u (pos_hash u) 0 slots (round_of (pos_hash u) j) e (omega arith)
            (omega arith) in
        subst (λ i. is_some (slot st.slot i) ≡ true) (place-round_of (pos_hash u) j l') p) in
      absurd (omega (arith, all_used, v.sized, v.counted, v.bounded))
  | inr (j, e) ↦ let (p, l) = probe_from-stops st.slot u (pos_hash u) 0 slots j e in (j, e, p, l)
]

get_or-replicate : (n j : ℕ) → slot (replicate n none) j ≡ none
get_or-replicate zero j = refl
get_or-replicate (suc n) zero = refl
get_or-replicate (suc n) (suc j) = get_or-replicate n j

pub get_or-cleared : (j : ℕ) → slot cleared.slot j ≡ none
unfolding cleared
get_or-cleared j = get_or-replicate slots j

pub cleared-IsValid : IsValid cleared
unfolding cleared
cleared-IsValid = record {
  sized = refl;
  counted = refl;
  bounded = omega arith;
  placed = λ j s h. absurd (some_absurd (sym (get_or-replicate slots j) ∙ h));
}

module _ (st : Store) (e : PosEntry) (now : ℤ) (j : ℕ) (v : IsValid st)
    (ends : probe st.slot e.uuid ≡ some j) where
  abbrev new_point : Sim
  new_point = record { e = e; recv_us = now }

  j-lt : j < length st.slot
  unfolding probe
  j-lt = omega (arith, probe_from-stops st.slot e.uuid (pos_hash e.uuid) 0 slots j ends, v.sized)

  -- Another stored point has another name.
  other_name : (k : ℕ) (t : Sim) → j ≢ k → slot st.slot k ≡ some t → str_eq e.uuid t.e.uuid ≡ false
  other_name k t d h = elim (Bool-cases (str_eq e.uuid t.e.uuid)) [
    | inl same ↦
        let p : probe st.slot e.uuid ≡ some k =
          subst (λ u. probe st.slot u ≡ some k) (sym (eq_of_str_eq e.uuid t.e.uuid same))
            (v.placed k t h) in
        absurd (d (some_inj (sym ends ∙ p)))
    | inr other ↦ other
  ]

  pub store_at-placed :
      (k : ℕ) (t : Sim)
      → slot (store_at j e now st).slot k ≡ some t
      → probe (store_at j e now st).slot t.e.uuid ≡ some k
  unfolding store_at probe
  store_at-placed k t h = elim (ℕ_discrete j k) [
    | yes same ↦
        let here : slot (set st.slot j (some new_point)) j ≡ some t =
          subst (λ i. slot (set st.slot j (some new_point)) i ≡ some t) (sym same) h in
        let new : new_point ≡ t =
          some_inj (sym (get_or-set_self st.slot j (some new_point) none j-lt) ∙ here) in
        rw (← new, ← same) (probe_from-set_self st.slot new_point _ 0 slots j j-lt ends)
    | no other ↦
        let old : slot st.slot k ≡ some t =
          sym (get_or-set_ne st.slot j k (some new_point) none other) ∙ h in
        probe_from-set_other st.slot new_point t.e.uuid _ 0 slots j k (other_name k t other old)
          j-lt (probe_from-stops st.slot e.uuid _ 0 slots j ends).0 (rw old refl) (v.placed k t old)
  ]

  pub store_at-IsValid :
      (not (is_some (slot st.slot j)) && leb store_max st.count) ≡ false
      → IsValid (store_at j e now st)
  unfolding store_at
  store_at-IsValid room = record {
    sized = omega (arith, length-set st.slot j (some new_point), v.sized);
    counted = ground (arith, used-set st.slot j new_point j-lt, v.counted);
    bounded = ground (arith, room, v.bounded);
    placed = store_at-placed;
  }
