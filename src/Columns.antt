-- ===== src/Columns.antt =====
-- Columns of identifiers, and the merge that a batch performs into one: the shared types of
-- src/visbatch.h, and `slv_dcpy`, `col_has` and `channel_update` of src/deferred.c.
pub mod Laws
use legion_voice_mixer.Prelude.{
  ℕ, Bool, true, false, not, ◌&&◌, ◌||◌, List, [], ◌∷◌, ◌++◌, CString, str_eq, uuid_len, take,
  if◌then◌else◌,
}

-- `slv_vis_op`
pub data VisOp : Type 0 where
  op_add op_remove op_replace : VisOp

-- A heap array of `SLV_UUID_LEN` rows; a NULL array is the empty list.
abbrev pub Column : Type 0
Column = List CString

-- `slv_dcpy`, `slv_ucpy`: a copy into an identifier buffer, at most 39 bytes.
unfoldable pub uuid_copy : CString → CString
uuid_copy = take 39

-- Is `s` among the rows?
unfoldable pub col_has : Column → CString → Bool
col_has [] s = false
col_has (r ∷ rows) s = str_eq r s || col_has rows s

abbrev pub is_nil : Column → Bool
is_nil [] = true
is_nil (r ∷ rows) = false

-- The REMOVE loop: the rows that `src` does not hold, in their order.
unfoldable pub keep_rows : Column → Column → Column
unfolding col_has
keep_rows src [] = []
keep_rows src (r ∷ rows) = let rest = keep_rows src rows in if col_has src r then rest else r ∷ rest

-- The ADD loop: the rows of `src` that are neither in `col` nor earlier in `src`, where `seen` holds
-- the earlier ones.
unfoldable pub new_rows : Column → Column → Column → Column
unfolding col_has uuid_copy
new_rows col seen [] = []
new_rows col seen (s ∷ src) =
    let rest = new_rows col (s ∷ seen) src in
    if not (col_has col s) && not (col_has seen s) then uuid_copy s ∷ rest else rest

-- The REPLACE loop: each row of `src` that `fresh` does not hold yet goes to its end.
unfoldable pub fill_rows : Column → Column → Column
unfolding col_has uuid_copy
fill_rows fresh [] = fresh
fill_rows fresh (s ∷ src) =
    fill_rows (if col_has fresh s then fresh else fresh ++ uuid_copy s ∷ []) src

-- ADD into an empty channel, or REPLACE. `alloc` is whether the one `malloc` succeeds.
unfoldable pub set_exactly : Bool → Column → Column → Column
unfolding fill_rows
set_exactly alloc col src = if is_nil src then [] else if alloc then fill_rows [] src else col

unfoldable pub add_union : Bool → Column → Column → Column
unfolding new_rows
add_union alloc col src =
    let added = new_rows col [] src in
    if is_nil added then col else if alloc then col ++ added else col

-- Update one channel in place per op; a failed `malloc` leaves it as it was.
unfoldable pub channel_update : Bool → VisOp → Column → Column → Column
unfolding keep_rows set_exactly add_union
channel_update alloc op_remove src col = keep_rows src col
channel_update alloc op_add src [] = set_exactly alloc [] src
channel_update alloc op_add src (r ∷ rows) = add_union alloc (r ∷ rows) src
channel_update alloc op_replace src col = set_exactly alloc col src
