-- ===== src/Columns/Laws.antt =====
-- A channel update against set algebra: what a column holds after each operation.
use legion_voice_mixer.Prelude.{
  ℕ, zero, suc, ◌≤◌, ◌<◌, ◌≡◌, refl, Bool, true, false, not, ◌&&◌, ◌||◌, [], ◌∷◌, ◌++◌, CString,
  arith, length, take, str_eq, str_eq_iff, uuid_len, inr, if◌then◌else◌, ap, ◌⊎◌, str_eq_refl,
  str_eq_comm,
}
use legion_voice_mixer.Columns.{
  VisOp, op_add, op_remove, op_replace, Column, uuid_copy, col_has, is_nil, keep_rows, new_rows,
  fill_rows, channel_update,
}

-- Every name fits its buffer, so that no copy cuts it.
abbrev pub Short : Column → Type 0
Short [] = Unit {0}
Short (r ∷ rows) = (length r < uuid_len) × Short rows

pub take-all : (n : ℕ) (s : CString) → length s ≤ n → take n s ≡ s
take-all zero [] h = refl
take-all zero (c ∷ s) h = absurd (omega arith)
take-all (suc n) [] h = refl
take-all (suc n) (c ∷ s) h = ap (◌∷◌ c) (take-all n s (omega arith))

pub uuid_copy_exact : (s : CString) → length s < uuid_len → uuid_copy s ≡ s
unfolding uuid_copy
uuid_copy_exact s h = take-all 39 s (omega arith)

pub col_has-append :
    (a b : Column) (s : CString) → col_has (a ++ b) s ≡ (col_has a s || col_has b s)
unfolding col_has
col_has-append [] b s = refl
col_has-append (r ∷ a) b s = ground (arith, col_has-append a b s)

-- Whether a row is held depends on its bytes alone.
pub col_has-cong :
    (rows : Column) (r s : CString) → str_eq r s ≡ true → col_has rows r ≡ col_has rows s
col_has-cong rows r s h = ap (col_has rows) ((str_eq_iff r s).0 h)

col_has-keep_rows :
    (src rows : Column) (s : CString)
    → col_has (keep_rows src rows) s ≡ (col_has rows s && not (col_has src s))
unfolding keep_rows
col_has-keep_rows src [] s = refl
col_has-keep_rows src (r ∷ rows) s =
    ground (arith, col_has-keep_rows src rows s, col_has-cong src r s)

col_has-new_rows :
    (col seen src : Column) (s : CString)
    → Short src
    → (col_has col s || col_has seen s || col_has (new_rows col seen src) s)
      ≡ (col_has col s || col_has seen s || col_has src s)
unfolding new_rows
col_has-new_rows col seen [] s h = refl
col_has-new_rows col seen (r ∷ src) s h = ground (
  arith,
  col_has-new_rows col (r ∷ seen) src s h.1,
  uuid_copy_exact r h.0,
  col_has-cong col r s,
  col_has-cong seen r s,
)

col_has-fill_rows :
    (fresh src : Column) (s : CString)
    → Short src
    → col_has (fill_rows fresh src) s ≡ (col_has fresh s || col_has src s)
unfolding fill_rows
col_has-fill_rows fresh [] s h = ground arith
col_has-fill_rows fresh (r ∷ src) s h = ground (
  arith,
  col_has-fill_rows (if col_has fresh r then fresh else fresh ++ uuid_copy r ∷ []) src s h.1,
  col_has-append fresh (uuid_copy r ∷ []) s,
  uuid_copy_exact r h.0,
  col_has-cong fresh r s,
)

-- Set algebra: membership after the operation, from membership before it and in the source.
abbrev pub merged : VisOp → Bool → Bool → Bool
merged op_add held named = held || named
merged op_remove held named = held && not named
merged op_replace held named = named

col_has-nil : (rows : Column) (s : CString) → is_nil rows ≡ true → col_has rows s ≡ false
unfolding col_has
col_has-nil [] s h = refl
col_has-nil (r ∷ rows) s h = cc

-- An update of a channel is the set operation that its name says: union for ADD, difference for
-- REMOVE and the source itself for REPLACE, while memory lasts and every name fits its buffer.
pub col_has-channel_update :
    (op : VisOp) (src col : Column) (s : CString)
    → Short src
    → col_has (channel_update true op src col) s ≡ merged op (col_has col s) (col_has src s)
unfolding channel_update col_has
col_has-channel_update op_remove src col s h = col_has-keep_rows src col s
col_has-channel_update op_add src [] s h =
    ground (arith, col_has-fill_rows [] src s h, col_has-nil src s)
col_has-channel_update op_add src (r ∷ rows) s h = ground (
  arith,
  col_has-new_rows (r ∷ rows) [] src s h,
  col_has-nil (new_rows (r ∷ rows) [] src) s,
  col_has-append (r ∷ rows) (new_rows (r ∷ rows) [] src) s,
)
col_has-channel_update op_replace src col s h =
    ground (arith, col_has-fill_rows [] src s h, col_has-nil src s)

-- Without memory a channel is left as it was, or comes out as it would with memory.
pub channel_update_atomic :
    (op : VisOp) (src col : Column)
    → (channel_update false op src col ≡ col)
      ⊎ (channel_update false op src col ≡ channel_update true op src col)
unfolding channel_update
channel_update_atomic op_remove src col = inr refl
channel_update_atomic op_add src [] = ground arith
channel_update_atomic op_add src (r ∷ rows) = ground arith
channel_update_atomic op_replace src col = ground arith

-- No row stands twice.
abbrev pub Distinct : Column → Type 0
Distinct [] = Unit {0}
Distinct (r ∷ rows) = (col_has rows r ≡ false) × Distinct rows

keep_rows-Distinct : (src rows : Column) → Distinct rows → Distinct (keep_rows src rows)
unfolding keep_rows
keep_rows-Distinct src [] d = tt
keep_rows-Distinct src (r ∷ rows) d =
    ground (arith, keep_rows-Distinct src rows d.1, col_has-keep_rows src rows r)

Distinct-snoc :
    (rows : Column) (s : CString)
    → Distinct rows
    → col_has rows s ≡ false
    → Distinct (rows ++ s ∷ [])
unfolding col_has
Distinct-snoc [] s d h = (refl, tt)
Distinct-snoc (r ∷ rows) s d h =
    ground (arith, Distinct-snoc rows s d.1, col_has-append rows (s ∷ []) r, str_eq_comm r s)

fill_rows-Distinct :
    (fresh src : Column) → Short src → Distinct fresh → Distinct (fill_rows fresh src)
unfolding fill_rows
fill_rows-Distinct fresh [] h d = d
fill_rows-Distinct fresh (s ∷ src) h d =
    fill_rows-Distinct (if col_has fresh s then fresh else fresh ++ uuid_copy s ∷ []) src h.1 step
  where
    step : Distinct (if col_has fresh s then fresh else fresh ++ uuid_copy s ∷ [])
    step = ground (arith, uuid_copy_exact s h.0, Distinct-snoc fresh s d)

-- The new rows are distinct, and held neither by the column nor earlier in the source.
new_rows_apart :
    (col seen src : Column) (s : CString)
    → Short src
    → (col_has col s || col_has seen s) ≡ true
    → col_has (new_rows col seen src) s ≡ false
unfolding new_rows col_has
new_rows_apart col seen [] s h e = refl
new_rows_apart col seen (r ∷ src) s h e = ground (
  arith,
  new_rows_apart col (r ∷ seen) src s h.1,
  uuid_copy_exact r h.0,
  col_has-cong col r s,
  col_has-cong seen r s,
)

col_has_self : (s : CString) (rows : Column) → col_has (s ∷ rows) s ≡ true
unfolding col_has
col_has_self s rows = rw (str_eq_refl s)

new_rows-Distinct : (col seen src : Column) → Short src → Distinct (new_rows col seen src)
unfolding new_rows
new_rows-Distinct col seen [] h = tt
new_rows-Distinct col seen (r ∷ src) h = ground (
  arith,
  new_rows-Distinct col (r ∷ seen) src h.1,
  new_rows_apart col (r ∷ seen) src r h.1,
  uuid_copy_exact r h.0,
  col_has_self r seen,
)

Distinct-append :
    (a b : Column)
    → Distinct a
    → Distinct b
    → ((s : CString) → col_has a s ≡ true → col_has b s ≡ false)
    → Distinct (a ++ b)
unfolding col_has
Distinct-append [] b d e apart = e
Distinct-append (r ∷ a) b d e apart = ground (
  arith,
  Distinct-append a b d.1 e (λ s h. apart s (ground (arith, h))),
  col_has-append a b r,
  apart r,
  str_eq_refl r,
)

-- An update keeps the rows of a channel distinct, with memory or without.
pub channel_update-Distinct :
    (alloc : Bool) (op : VisOp) (src col : Column)
    → Short src
    → Distinct col
    → Distinct (channel_update alloc op src col)
unfolding channel_update
channel_update-Distinct alloc op_remove src col h d = keep_rows-Distinct src col d
channel_update-Distinct alloc op_add src [] h d = ground (arith, fill_rows-Distinct [] src h)
channel_update-Distinct alloc op_add src (r ∷ rows) h d = ground (
  arith,
  Distinct-append (r ∷ rows) (new_rows (r ∷ rows) [] src) d (new_rows-Distinct (r ∷ rows) [] src h)
      (λ s e. new_rows_apart (r ∷ rows) [] src s h (ground (arith, e))),
)
channel_update-Distinct alloc op_replace src col h d = ground (arith, fill_rows-Distinct [] src h)
