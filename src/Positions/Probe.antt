-- ===== src/Positions/Probe.antt =====
-- Open addressing: where a probe stops, and that storing at the place of one name moves no other.
use legion_voice_mixer.Prelude.{
  ℕ, zero, suc, ◌<◌, ◌≡◌, ◌≢◌, refl, subst, true, false, List, [], ◌∷◌, Option, none, some, CString,
  length, str_eq, str_eq_refl, eq_of_str_eq, get_or, set, arith,
}
use legion_voice_mixer.Glib.{is_some}
use legion_voice_mixer.Positions.{slots}
use legion_voice_mixer.Positions.Store.{Sim, Slots, place, stops, probe_from}

pub get_or-set_self {ℓ} :
    {A : Type ℓ} (xs : List A) (i : ℕ) (v d : A) → i < length xs → get_or (set xs i v) i d ≡ v
get_or-set_self [] i v d h = absurd (omega arith)
get_or-set_self (x ∷ xs) zero v d h = refl
get_or-set_self (x ∷ xs) (suc i) v d h = get_or-set_self xs i v d (omega arith)

pub get_or-set_ne {ℓ} :
    {A : Type ℓ} (xs : List A) (i j : ℕ) (v d : A) → i ≢ j → get_or (set xs i v) j d ≡ get_or xs j d
get_or-set_ne [] i j v d h = refl
get_or-set_ne (x ∷ xs) zero zero v d h = absurd (h refl)
get_or-set_ne (x ∷ xs) zero (suc j) v d h = refl
get_or-set_ne (x ∷ xs) (suc i) zero v d h = refl
get_or-set_ne (x ∷ xs) (suc i) (suc j) v d h = get_or-set_ne xs i j v d (omega arith)

pub place-lt : (h i : ℕ) → place h i < slots
unfolding place
place-lt h i = omega arith

abbrev pub slot : Slots → ℕ → Option Sim
slot table j = get_or table j none

-- Where a probe stops: within the table, at an empty slot or at the name's own.
pub probe_from-stops :
    (table : Slots) (u : CString) (h i left j : ℕ)
    → probe_from table u h i left ≡ some j
    → (stops u (slot table j) ≡ true) × (j < slots)
unfolding probe_from
probe_from-stops table u h i zero j e = cc
probe_from-stops table u h i (suc left) j e =
    ground (arith, probe_from-stops table u h (suc i) left j, place-lt h i)

-- Only one name stops a probe at a point.
stops_unique :
    (a b : CString) (o : Option Sim)
    → is_some o ≡ true
    → stops a o ≡ true
    → stops b o ≡ true
    → str_eq a b ≡ true
unfolding stops
stops_unique a b none f p q = cc
stops_unique a b (some t) f p q =
    let e = eq_of_str_eq t.e.uuid a p in
    let e' = eq_of_str_eq t.e.uuid b q in
    subst (λ x. str_eq x b ≡ true) e
      (subst (λ x. str_eq t.e.uuid x ≡ true) e' (str_eq_refl t.e.uuid))

stops_own : (s : Sim) → stops s.e.uuid (some s) ≡ true
unfolding stops
stops_own s = str_eq_refl s.e.uuid

stops_other : (s : Sim) (u : CString) → str_eq s.e.uuid u ≡ false → stops u (some s) ≡ false
unfolding stops
stops_other s u h = h

-- The name's own point, stored where its probe stops, is where the probe stops afterwards.
pub probe_from-set_self :
    (table : Slots) (s : Sim) (h i left j : ℕ)
    → j < length table
    → probe_from table s.e.uuid h i left ≡ some j
    → probe_from (set table j (some s)) s.e.uuid h i left ≡ some j
unfolding probe_from
probe_from-set_self table s h i zero j l e = cc
probe_from-set_self table s h i (suc left) j l e = ground (
  arith,
  e,
  stops_own s,
  probe_from-stops table s.e.uuid h (suc i) left j,
  get_or-set_self table j (some s) none l,
  get_or-set_ne table j (place h i) (some s) none,
  probe_from-set_self table s h (suc i) left j l,
)

-- Another name's point is found at the same place.
pub probe_from-set_other :
    (table : Slots) (s : Sim) (u : CString) (h i left j k : ℕ)
    → str_eq s.e.uuid u ≡ false
    → j < length table
    → stops s.e.uuid (slot table j) ≡ true
    → is_some (slot table k) ≡ true
    → probe_from table u h i left ≡ some k
    → probe_from (set table j (some s)) u h i left ≡ some k
unfolding probe_from
probe_from-set_other table s u h i zero j k d l w f e = cc
probe_from-set_other table s u h i (suc left) j k d l w f e = ground (
  arith,
  e,
  stops_other s u d,
  stops_unique s.e.uuid u (slot table j),
  get_or-set_self table j (some s) none l,
  get_or-set_ne table j (place h i) (some s) none,
  probe_from-set_other table s u h (suc i) left j k d l w f,
)
