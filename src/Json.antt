-- ===== src/Json.antt =====
-- What src/visbatch.c, src/possync.c and src/sldata.c use of Jansson, a library whose code is not in the
-- repository: the parse of a buffer, the tests of a value's type and the accessors. `json_decref` has no
-- effect on what the callers compute.
use legion_voice_mixer.Prelude.{ℕ, ◌≡◌, Bool, false, List, Option, none, some, CString, length}
use legion_voice_mixer.Prelude.Int.{ℤ}

pub record Json : Type 1 where
  pub Value : Type 0
  -- `json_loadb(buf, len, 0, &err)`, `none` for NULL.
  pub loadb : List ℕ → Option Value
  pub is_object : Value → Bool
  pub is_array : Value → Bool
  pub is_string : Value → Bool
  pub is_integer : Value → Bool
  pub is_real : Value → Bool
  pub is_boolean : Value → Bool
  pub is_true : Value → Bool
  pub string_value : Value → CString
  pub integer_value : Value → ℤ
  -- `json_object_get`, `none` for a missing key.
  pub object_get : Value → CString → Option Value
  pub object_size : Value → ℕ
  -- What `json_object_foreach` visits, in its order.
  pub object_entries : Value → List (CString × Value)
  pub array_size : Value → ℕ
  -- What `json_array_foreach` visits: `json_array_get` at each index below the size.
  pub array_items : Value → List Value
  pub object_size_lem : (v : Value) → object_size v ≡ length (object_entries v)
  pub array_size_lem : (v : Value) → array_size v ≡ length (array_items v)

-- A test of a value that may be NULL, which has no type.
abbrev pub holds {ℓ} : {A : Type ℓ} → (A → Bool) → Option A → Bool
holds test none = false
holds test (some v) = test v
