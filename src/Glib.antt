-- ===== src/Glib.antt =====
-- What src/janus_slvoice.c relies on of GLib's hash tables with string keys. Their code is not in the
-- repository; these are the documented effects of `g_hash_table_contains`, `_add`, `_remove`, `_lookup`,
-- `_insert` and `_size`, and of iterating over the keys, in an order that is not specified.
use legion_voice_mixer.Prelude.{
  ℕ, ◌+◌, ◌≡◌, Bool, true, false, not, ◌&&◌, ◌||◌, Option, none, some, CString, str_eq,
  if◌then◌else◌,
}
use legion_voice_mixer.Columns.{Column, col_has}

-- A table used as a set.
pub record StrSet : Type 1 where
  pub Keys : Type 0
  pub empty : Keys
  pub contains : Keys → CString → Bool
  pub add : Keys → CString → Keys
  pub remove : Keys → CString → Keys
  pub keys : Keys → Column
  pub contains_empty : (s : CString) → contains empty s ≡ false
  pub contains_add :
      (set : Keys) (k s : CString) → contains (add set k) s ≡ (str_eq k s || contains set s)
  pub contains_remove :
      (set : Keys) (k s : CString)
      → contains (remove set k) s ≡ (not (str_eq k s) && contains set s)
  pub has_keys : (set : Keys) (s : CString) → col_has (keys set) s ≡ contains set s

abbrev pub is_some {ℓ} : {A : Type ℓ} → Option A → Bool
is_some none = false
is_some (some a) = true

abbrev pub map_option {ℓ κ} : {A : Type ℓ} {B : Type κ} → (A → B) → Option A → Option B
map_option f none = none
map_option f (some a) = some (f a)

-- A table from strings to values.
pub record StrMap (V : Type 0) : Type 1 where
  pub Map : Type 0
  pub empty : Map
  pub lookup : Map → CString → Option V
  pub insert : Map → CString → V → Map
  pub size : Map → ℕ
  pub lookup_empty : (s : CString) → lookup empty s ≡ none
  pub lookup_insert :
      (m : Map) (k s : CString) (v : V)
      → lookup (insert m k v) s ≡ (if str_eq k s then some v else lookup m s)
  pub size_empty : size empty ≡ 0
  pub size_insert :
      (m : Map) (k : CString) (v : V)
      → size (insert m k v) ≡ (if is_some (lookup m k) then size m else size m + 1)
  -- `g_hash_table_iter_remove` of the keys that fail a test, over a whole iteration.
  pub keep : Map → (CString → Bool) → Map
  pub lookup_keep :
      (m : Map) (test : CString → Bool) (s : CString)
      → lookup (keep m test) s ≡ (if test s then lookup m s else none)
  -- A write to every value, over a whole iteration.
  pub update_all : Map → (V → V) → Map
  pub lookup_update_all :
      (m : Map) (f : V → V) (s : CString) → lookup (update_all m f) s ≡ map_option f (lookup m s)
