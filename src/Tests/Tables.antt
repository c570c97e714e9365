-- ===== src/Tests/Tables.antt =====
-- Tables as lists, which have what the code relies on of GLib's.
use legion_voice_mixer.Prelude.{
  ◌+◌, ◌≡◌, refl, Bool, false, not, ◌&&◌, ◌||◌, List, [], ◌∷◌, Option, none, some, CString, str_eq,
  str_eq_iff, length, arith, if◌then◌else◌,
}
use legion_voice_mixer.Columns.{Column, col_has}
use legion_voice_mixer.Glib.{StrSet, StrMap, is_some, map_option}

abbrev pub drop_row : Column → CString → Column
drop_row [] k = []
drop_row (r ∷ rows) k = let rest = drop_row rows k in if str_eq r k then rest else r ∷ rest

pub col_has-drop_row :
    (rows : Column) (k s : CString)
    → col_has (drop_row rows k) s ≡ (not (str_eq k s) && col_has rows s)
unfolding col_has
col_has-drop_row [] k s = ground arith
col_has-drop_row (r ∷ rows) k s =
    ground (arith, col_has-drop_row rows k s, str_eq_iff r k, str_eq_iff k s, str_eq_iff r s)

pub col_has-nil : (s : CString) → col_has [] s ≡ false
unfolding col_has
col_has-nil s = refl

pub col_has-cons :
    (set : Column) (k s : CString) → col_has (k ∷ set) s ≡ (str_eq k s || col_has set s)
unfolding col_has
col_has-cons set k s = refl

abbrev pub list_sets : StrSet
list_sets = record {
  Keys = Column;
  empty = [];
  contains = col_has;
  add = λ set k. k ∷ set;
  remove = drop_row;
  keys = λ set. set;
  contains_empty = col_has-nil;
  contains_add = col_has-cons;
  contains_remove = col_has-drop_row;
  has_keys = λ set s. refl;
}

module _ {V : Type 0} where
  abbrev pub lookup_row : List (CString × V) → CString → Option V
  lookup_row [] s = none
  lookup_row (r ∷ rows) s =
      let later = lookup_row rows s in if str_eq r.0 s then some r.1 else later

  abbrev pub set_row : List (CString × V) → CString → V → List (CString × V)
  set_row [] k v = (k, v) ∷ []
  set_row (r ∷ rows) k v =
      let rest = set_row rows k v in if str_eq r.0 k then (k, v) ∷ rows else r ∷ rest

  pub lookup_row-set_row :
      (rows : List (CString × V)) (k s : CString) (v : V)
      → lookup_row (set_row rows k v) s ≡ (if str_eq k s then some v else lookup_row rows s)
  lookup_row-set_row [] k s v = ground arith
  lookup_row-set_row (r ∷ rows) k s v =
      ground
        (arith, lookup_row-set_row rows k s v, str_eq_iff r.0 k, str_eq_iff k s, str_eq_iff r.0 s)

  pub length-set_row :
      (rows : List (CString × V)) (k : CString) (v : V)
      → length (set_row rows k v)
        ≡ (if is_some (lookup_row rows k) then length rows else length rows + 1)
  length-set_row [] k v = ground arith
  length-set_row (r ∷ rows) k v = ground (arith, length-set_row rows k v)

  abbrev pub filter_rows : List (CString × V) → (CString → Bool) → List (CString × V)
  filter_rows [] test = []
  filter_rows (r ∷ rows) test =
      let rest = filter_rows rows test in if test r.0 then r ∷ rest else rest

  pub lookup_row-filter_rows :
      (rows : List (CString × V)) (test : CString → Bool) (s : CString)
      → lookup_row (filter_rows rows test) s ≡ (if test s then lookup_row rows s else none)
  lookup_row-filter_rows [] test s = ground arith
  lookup_row-filter_rows (r ∷ rows) test s =
      ground (arith, lookup_row-filter_rows rows test s, str_eq_iff r.0 s)

  abbrev pub change_rows : List (CString × V) → (V → V) → List (CString × V)
  change_rows [] f = []
  change_rows (r ∷ rows) f = (r.0, f r.1) ∷ change_rows rows f

  pub lookup_row-change_rows :
      (rows : List (CString × V)) (f : V → V) (s : CString)
      → lookup_row (change_rows rows f) s ≡ map_option f (lookup_row rows s)
  lookup_row-change_rows [] f s = refl
  lookup_row-change_rows (r ∷ rows) f s = ground (arith, lookup_row-change_rows rows f s)

abbrev pub list_maps : (V : Type 0) → StrMap V
list_maps V = record {
  Map = List (CString × V);
  empty = [];
  lookup = lookup_row;
  insert = set_row;
  size = length;
  lookup_empty = λ s. refl;
  lookup_insert = lookup_row-set_row;
  size_empty = refl;
  size_insert = length-set_row;
  keep = filter_rows;
  lookup_keep = lookup_row-filter_rows;
  update_all = change_rows;
  lookup_update_all = lookup_row-change_rows;
}
