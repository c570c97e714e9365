-- ===== src/Deferred/Rows.antt =====
-- Writing one record in place, appending one, and finding the oldest.
use legion_voice_mixer.Prelude.{
  ℕ, zero, suc, ◌+◌, ◌≤◌, ◌<◌, ◌≡◌, refl, ap, Bool, true, false, List, [], ◌∷◌, ◌++◌, none, some,
  CString, arith, str_eq, str_eq_refl, str_eq_iff, str_eq_comm, length, get_elem?, set,
  if◌then◌else◌, ltb, subst, ◌⊎◌, inl, inr, ltb→lt,
}
use legion_voice_mixer.Deferred.{Entry, oldest_from, oldest, remove_at}
use legion_voice_mixer.Deferred.Remove.{find, find-get_elem?, Unique, Each}
use mathlib.Core.Option.{some-injective}

-- A record written back under its own listener.
pub find-set :
    (k : CString) (es : List Entry) (i : ℕ) (e e' : Entry)
    → Unique es
    → get_elem? es i ≡ some e
    → e'.listener ≡ e.listener
    → find k (set es i e') ≡ (if str_eq e.listener k then some e' else find k es)
find-set k [] i e e' u g h = cc
find-set k (d ∷ es) zero e e' u g h = ground arith
find-set k (d ∷ es) (suc i) e e' u g h = ground (
  arith,
  find-set k es i e e' u.1 g h,
  find-get_elem? es i e u.1 g,
  str_eq_iff d.listener k,
  str_eq_iff e.listener k,
)

pub set-Unique :
    (es : List Entry) (i : ℕ) (e e' : Entry)
    → Unique es
    → get_elem? es i ≡ some e
    → e'.listener ≡ e.listener
    → Unique (set es i e')
set-Unique [] i e e' u g h = u
set-Unique (d ∷ es) zero e e' u g h = ground arith
set-Unique (d ∷ es) (suc i) e e' u g h = ground (
  arith,
  set-Unique es i e e' u.1 g h,
  find-set d.listener es i e e' u.1 g h,
  find-get_elem? es i e u.1 g,
  str_eq_iff e.listener d.listener,
)

pub set-Each :
    (P : Entry → Type 0) (es : List Entry) (i : ℕ) (e : Entry)
    → Each P es
    → P e
    → Each P (set es i e)
set-Each P [] i e a p = a
set-Each P (d ∷ es) zero e a p = (p, a.1)
set-Each P (d ∷ es) (suc i) e a p = (a.0, set-Each P es i e a.1 p)

pub find-snoc :
    (k : CString) (es : List Entry) (e : Entry)
    → find e.listener es ≡ none
    → find k (es ++ e ∷ []) ≡ (if str_eq e.listener k then some e else find k es)
find-snoc k [] e h = refl
find-snoc k (d ∷ es) e h =
    ground
      (arith, find-snoc k es e, str_eq_iff d.listener k, str_eq_iff e.listener k, str_eq_refl k)

pub snoc-Unique :
    (es : List Entry) (e : Entry) → Unique es → find e.listener es ≡ none → Unique (es ++ e ∷ [])
snoc-Unique [] e u h = (refl, tt)
snoc-Unique (d ∷ es) e u h =
    ground
      (arith, snoc-Unique es e u.1, find-snoc d.listener es e, str_eq_comm e.listener d.listener)

pub snoc-Each :
    (P : Entry → Type 0) (es : List Entry) (e : Entry) → Each P es → P e → Each P (es ++ e ∷ [])
snoc-Each P [] e a p = (p, tt)
snoc-Each P (d ∷ es) e a p = (a.0, snoc-Each P es e a.1 p)

pub get_elem?-snoc : (es : List Entry) (e : Entry) → get_elem? (es ++ e ∷ []) (length es) ≡ some e
get_elem?-snoc [] e = refl
get_elem?-snoc (d ∷ es) e = get_elem?-snoc es e

pub get_elem?-lt : (es : List Entry) (i : ℕ) {e : Entry} → get_elem? es i ≡ some e → i < length es
get_elem?-lt [] i g = cc
get_elem?-lt (d ∷ es) zero g = omega arith
get_elem?-lt (d ∷ es) (suc i) g = omega (arith, get_elem?-lt es i g)

pub Each-get_elem? :
    (P : Entry → Type 0) (es : List Entry) (i : ℕ) (e : Entry)
    → Each P es
    → get_elem? es i ≡ some e
    → P e
Each-get_elem? P [] i e a g = cc
Each-get_elem? P (d ∷ es) zero e a g = subst P (some-injective _ _ g) a.0
Each-get_elem? P (d ∷ es) (suc i) e a g = Each-get_elem? P es i e a.1 g

-- Where the search for the oldest stands: no stamp of the list is below that of the record found, nor is
-- the stamp it started from.
abbrev pub NoneOlder : ℕ → List Entry → Type 0
NoneOlder stamp = Each (λ e. stamp ≤ e.added_seq)

-- What the loop returns: the start, when nothing in the list is older, or else a record of the list
-- that is older than the start and than which none is older.
abbrev OldestFrom : List Entry → ℕ → ℕ → ℕ → ℕ → Type 0
OldestFrom es k best stamp r =
    ((r ≡ best) × NoneOlder stamp es)
    ⊎ ((i : ℕ) × (o : Entry) × (r ≡ k + i)
        × (get_elem? es i ≡ some o)
        × (o.added_seq < stamp)
        × NoneOlder o.added_seq es)

cons-OldestFrom :
    (e : Entry) (es : List Entry) (k best stamp r : ℕ) (b : Bool)
    → ltb e.added_seq stamp ≡ b
    → OldestFrom es (suc k) (if b then k else best) (if b then e.added_seq else stamp) r
    → OldestFrom (e ∷ es) k best stamp r
cons-OldestFrom e es k best stamp r true t (inl (h, none_older)) =
    inr (0, e, omega (arith, h), refl, ltb→lt _ _ t, (omega arith, none_older))
cons-OldestFrom e es k best stamp r false t (inl (h, none_older)) =
    inl (h, (ground (arith, t), none_older))
cons-OldestFrom e es k best stamp r true t (inr (i, o, h, g, older, none_older)) =
    inr (suc i, o, omega arith, g, ground (arith, t), (omega arith, none_older))
cons-OldestFrom e es k best stamp r false t (inr (i, o, h, g, older, none_older)) =
    inr (suc i, o, omega arith, g, older, (ground (arith, t), none_older))

oldest_from-OldestFrom :
    (es : List Entry) (k best stamp : ℕ) → OldestFrom es k best stamp (oldest_from es k best stamp)
unfolding oldest_from
oldest_from-OldestFrom [] k best stamp = inl (refl, tt)
oldest_from-OldestFrom (e ∷ es) k best stamp =
    cons-OldestFrom e es k best stamp _ (ltb e.added_seq stamp) refl (
      oldest_from-OldestFrom es (suc k) (if ltb e.added_seq stamp then k else best)
        (if ltb e.added_seq stamp then e.added_seq else stamp))

-- The search finds a record of the store, and no record has a lower stamp.
pub oldest-NoneOlder :
    (es : List Entry)
    → 0 < length es
    → (o : Entry) × (get_elem? es (oldest es) ≡ some o) × NoneOlder o.added_seq es
unfolding oldest
oldest-NoneOlder [] h = absurd (omega arith)
oldest-NoneOlder (e ∷ es) h = elim (oldest_from-OldestFrom es 1 0 e.added_seq) [
  | inl (r, n) ↦ (e, rw r, (omega arith, n))
  | inr (i, o, r, g, older, n) ↦
      (o, rw r (let s : 1 + i ≡ suc i = omega arith in rw s g), (omega arith, n))
]

pub set-snoc : (es : List Entry) (e e' : Entry) → set (es ++ e ∷ []) (length es) e' ≡ es ++ e' ∷ []
set-snoc [] e e' = refl
set-snoc (d ∷ es) e e' = ap (◌∷◌ d) (set-snoc es e e')

pub remove_at-snoc : (es : List Entry) (e : Entry) → remove_at (es ++ e ∷ []) (length es) ≡ es
unfolding remove_at
remove_at-snoc [] e = refl
remove_at-snoc (d ∷ es) e = ap (◌∷◌ d) (remove_at-snoc es e)

pub remove_at-set :
    (es : List Entry) (i : ℕ) (e : Entry) → remove_at (set es i e) i ≡ remove_at es i
unfolding remove_at
remove_at-set [] i e = refl
remove_at-set (d ∷ es) zero e = refl
remove_at-set (d ∷ es) (suc i) e = ap (◌∷◌ d) (remove_at-set es i e)
