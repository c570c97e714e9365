-- ===== src/Swap.antt =====
-- The way the fixed arrays of src/deferred.c and src/joincap.c are compacted: the last row fills a hole.
use legion_voice_mixer.Prelude.{
  ◌≡◌, ◌++◌, refl, Bool, true, false, ◌||◌, ◌+◌, ℕ, if◌then◌else◌, List, [], ◌∷◌, arith, length,
}

module _ {ℓ} {A : Type ℓ} where
  -- A list that is not empty, without its last element, and that element.
  unfoldable pub split_last : A → List A → List A × A
  split_last e [] = ([], e)
  split_last e (d ∷ es) = let (start, last) = split_last d es in (e ∷ start, last)

  -- The last row moved to the front.
  unfoldable pub move_last : List A → List A
  unfolding split_last
  move_last [] = []
  move_last (e ∷ es) = let (start, last) = split_last e es in last ∷ start

  length-split_last : (e : A) (es : List A) → length (split_last e es).0 ≡ length es
  unfolding split_last
  length-split_last e [] = refl
  length-split_last e (d ∷ es) = omega (arith, length-split_last d es)

  pub length-move_last : (es : List A) → length (move_last es) ≡ length es
  unfolding move_last
  length-move_last [] = refl
  length-move_last (e ∷ es) = omega (arith, length-split_last e es)

  -- Does some row pass the test?
  abbrev pub any : (A → Bool) → List A → Bool
  any p [] = false
  any p (e ∷ es) = p e || any p es

  any-split_last :
      (p : A → Bool) (e : A) (es : List A)
      → (p (split_last e es).1 || any p (split_last e es).0) ≡ (p e || any p es)
  unfolding split_last
  any-split_last p e [] = refl
  any-split_last p e (d ∷ es) = ground (arith, any-split_last p d es)

  pub any-move_last : (p : A → Bool) (es : List A) → any p (move_last es) ≡ any p es
  unfolding move_last
  any-move_last p [] = refl
  any-move_last p (e ∷ es) = any-split_last p e es

  -- How many rows pass the test?
  abbrev pub count : (A → Bool) → List A → ℕ
  count p [] = 0
  count p (e ∷ es) = (if p e then 1 else 0) + count p es

  count-split_last :
      (p : A → Bool) (e : A) (es : List A)
      → (if p (split_last e es).1 then 1 else 0) + count p (split_last e es).0
        ≡ (if p e then 1 else 0) + count p es
  unfolding split_last
  count-split_last p e [] = refl
  count-split_last p e (d ∷ es) = ground (arith, count-split_last p d es)

  pub count-move_last : (p : A → Bool) (es : List A) → count p (move_last es) ≡ count p es
  unfolding move_last
  count-move_last p [] = refl
  count-move_last p (e ∷ es) = count-split_last p e es

  pub any-cong : (p q : A → Bool) (es : List A) → ((e : A) → p e ≡ q e) → any p es ≡ any q es
  any-cong p q [] h = refl
  any-cong p q (e ∷ es) h = rw (h e, any-cong p q es h)

  pub any-snoc : (p : A → Bool) (es : List A) (e : A) → any p (es ++ e ∷ []) ≡ (any p es || p e)
  any-snoc p [] e = ground arith
  any-snoc p (d ∷ es) e = ground (arith, any-snoc p es e)

  -- What passes a test is a row that passes a weaker one.
  pub any_mono :
      (p q : A → Bool) (es : List A)
      → ((e : A) → p e ≡ true → q e ≡ true)
      → any p es ≡ true
      → any q es ≡ true
  any_mono p q [] h t = t
  any_mono p q (e ∷ es) h t = ground (arith, h e, any_mono p q es h)
