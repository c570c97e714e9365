-- ===== src/Deferred/Remove.antt =====
-- Looking records up by listener, and what the swap-removal of one does to the lookups.
use legion_voice_mixer.Prelude.{
  ℕ, zero, suc, ◌+◌, ◌<◌, ◌≡◌, refl, Bool, true, false, List, [], ◌∷◌, Option, none, some, CString,
  arith, str_eq, length, get_elem?, if◌then◌else◌, Option-cases, inl, inr, ◌⊎◌, str_eq_iff,
  str_eq_comm, str_eq_refl,
}
use legion_voice_mixer.Swap.{length-move_last, split_last, move_last}
use legion_voice_mixer.Deferred.{Entry, Store, one_on, find_idx, get, remove_at}

-- The first record for a listener.
abbrev pub find : CString → List Entry → Option Entry
find k [] = none
find k (e ∷ es) = if str_eq e.listener k then some e else find k es

-- The index search finds the record that the lookup finds, under the key that was asked for.
abbrev pub Found : CString → List Entry → Option ℕ → Type 0
Found k es none = find k es ≡ none
Found k es (some i) =
    (e : Entry) × (get_elem? es i ≡ some e) × (find k es ≡ some e) × (str_eq e.listener k ≡ true)

cons-Found :
    (e : Entry) (es : List Entry) (k : CString) (b : Bool) (o : Option ℕ)
    → str_eq e.listener k ≡ b
    → Found k es o
    → Found k (e ∷ es) (if b then some zero else one_on o)
cons-Found e es k true o t f = (e, refl, rw t, t)
cons-Found e es k false none t f = rw t f
cons-Found e es k false (some i) t (d, g, h, q) = (d, g, rw t h, q)

pub find_idx-Found : (es : List Entry) (k : CString) → Found k es (find_idx es k)
unfolding find_idx
find_idx-Found [] k = refl
find_idx-Found (e ∷ es) k =
    cons-Found e es k (str_eq e.listener k) (find_idx es k) refl (find_idx-Found es k)

pub get-eq-find : (st : Store) (k : CString) → get st k ≡ find k st.entries
unfolding get
get-eq-find st k = elim (Option-cases (find_idx st.entries k)) [
  | inl n ↦ ground (arith, n, rw n at (find_idx-Found st.entries k))
  | inr (i, q) ↦ ground (arith, q, rw q at (find_idx-Found st.entries k))
]

-- No two records share a listener.
abbrev pub Unique : List Entry → Type 0
Unique [] = Unit {0}
Unique (e ∷ es) = (find e.listener es ≡ none) × Unique es

-- Every record has the property.
abbrev pub Each : (Entry → Type 0) → List Entry → Type 0
Each P [] = Unit {0}
Each P (e ∷ es) = P e × Each P es

split_last-find :
    (k : CString) (e : Entry) (es : List Entry)
    → Unique (e ∷ es)
    → let (start, last) = split_last e es in find k (last ∷ start) ≡ find k (e ∷ es)
unfolding split_last
split_last-find k e [] u = refl
split_last-find k e (d ∷ es) u = ground (
  arith,
  split_last-find k d es u.1,
  split_last-find e.listener d es u.1,
  str_eq_iff e.listener k,
  str_eq_iff (split_last d es).1.listener k,
  str_eq_iff (split_last d es).1.listener e.listener,
)

split_last-Unique :
    (e : Entry) (es : List Entry)
    → Unique (e ∷ es)
    → let (start, last) = split_last e es in Unique (last ∷ start)
unfolding split_last
split_last-Unique e [] u = u
split_last-Unique e (d ∷ es) u = ground (
  arith,
  split_last-Unique d es u.1,
  split_last-find (split_last d es).1.listener d es u.1,
  split_last-find e.listener d es u.1,
  str_eq_comm (split_last d es).1.listener e.listener,
)

split_last-Each :
    (P : Entry → Type 0) (e : Entry) (es : List Entry)
    → Each P (e ∷ es)
    → let (start, last) = split_last e es in Each P (last ∷ start)
unfolding split_last
split_last-Each P e [] a = a
split_last-Each P e (d ∷ es) a = let rest = split_last-Each P d es a.1 in (rest.0, (a.0, rest.1))

find-move_last : (k : CString) (es : List Entry) → Unique es → find k (move_last es) ≡ find k es
unfolding move_last
find-move_last k [] u = refl
find-move_last k (e ∷ es) u = split_last-find k e es u

move_last-Unique : (es : List Entry) → Unique es → Unique (move_last es)
unfolding move_last
move_last-Unique [] u = u
move_last-Unique (e ∷ es) u = split_last-Unique e es u

move_last-Each : (P : Entry → Type 0) (es : List Entry) → Each P es → Each P (move_last es)
unfolding move_last
move_last-Each P [] a = a
move_last-Each P (e ∷ es) a = split_last-Each P e es a

pub find-get_elem? :
    (es : List Entry) (i : ℕ) (e : Entry)
    → Unique es
    → get_elem? es i ≡ some e
    → find e.listener es ≡ some e
find-get_elem? [] i e u g = cc
find-get_elem? (d ∷ es) zero e u g = ground (arith, str_eq_refl d.listener)
find-get_elem? (d ∷ es) (suc i) e u g =
    ground (arith, find-get_elem? es i e u.1 g, str_eq_iff d.listener e.listener)

-- The swap-removal of a record takes its listener out of the store and no other one.
pub find-remove_at :
    (k : CString) (es : List Entry) (i : ℕ) (e : Entry)
    → Unique es
    → get_elem? es i ≡ some e
    → find k (remove_at es i) ≡ (if str_eq e.listener k then none else find k es)
unfolding remove_at
find-remove_at k [] i e u g = cc
find-remove_at k (d ∷ es) zero e u g =
    ground (arith, find-move_last k es u.1, str_eq_iff d.listener k)
find-remove_at k (d ∷ es) (suc i) e u g = ground (
  arith,
  find-remove_at k es i e u.1 g,
  find-get_elem? es i e u.1 g,
  str_eq_iff d.listener k,
  str_eq_iff e.listener k,
)

pub remove_at-Each :
    (P : Entry → Type 0) (es : List Entry) (i : ℕ) → Each P es → Each P (remove_at es i)
unfolding remove_at
remove_at-Each P [] i a = a
remove_at-Each P (d ∷ es) zero a = move_last-Each P es a.1
remove_at-Each P (d ∷ es) (suc i) a = (a.0, remove_at-Each P es i a.1)

pub find-remove_at-none :
    (k : CString) (es : List Entry) (i : ℕ)
    → Unique es
    → find k es ≡ none
    → find k (remove_at es i) ≡ none
unfolding remove_at
find-remove_at-none k [] i u h = refl
find-remove_at-none k (d ∷ es) zero u h = ground (arith, find-move_last k es u.1)
find-remove_at-none k (d ∷ es) (suc i) u h = ground (arith, find-remove_at-none k es i u.1)

pub remove_at-Unique : (es : List Entry) (i : ℕ) → Unique es → Unique (remove_at es i)
unfolding remove_at
remove_at-Unique [] i u = u
remove_at-Unique (d ∷ es) zero u = move_last-Unique es u.1
remove_at-Unique (d ∷ es) (suc i) u =
    (find-remove_at-none d.listener es i u.1 u.0, remove_at-Unique es i u.1)

pub length-remove_at :
    (es : List Entry) (i : ℕ) → i < length es → length (remove_at es i) + 1 ≡ length es
unfolding remove_at
length-remove_at [] i h = absurd (omega arith)
length-remove_at (d ∷ es) zero h = omega (arith, length-move_last es)
length-remove_at (d ∷ es) (suc i) h = omega (arith, length-remove_at es i)

abbrev pub FindCases : List Entry → CString → Option ℕ → Type 0
FindCases es k o =
    ((o ≡ none) × (find k es ≡ none))
    ⊎ ((i : ℕ) × (e : Entry) × (o ≡ some i)
        × (get_elem? es i ≡ some e)
        × (find k es ≡ some e)
        × (e.listener ≡ k))

cases_of_Found : (es : List Entry) (k : CString) (o : Option ℕ) → Found k es o → FindCases es k o
cases_of_Found es k none f = inl (refl, f)
cases_of_Found es k (some i) (e, g, h, t) = inr (i, e, refl, g, h, (str_eq_iff e.listener k).0 t)

-- A search of the array fails, or yields the index of the record for that listener.
pub find_cases : (es : List Entry) (k : CString) → FindCases es k (find_idx es k)
find_cases es k = cases_of_Found es k (find_idx es k) (find_idx-Found es k)
