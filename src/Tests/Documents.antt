-- ===== src/Tests/Documents.antt =====
-- JSON documents, and the interface of Jansson at a buffer that holds one of them.
use legion_voice_mixer.Prelude.{
  refl, Bool, true, false, List, [], ◌∷◌, Option, none, some, CString, length, str_eq,
  if◌then◌else◌,
}
use legion_voice_mixer.Prelude.Int.{ℤ, pos}
use legion_voice_mixer.Json.{Json}

mutual
  pub data Document : Type 0 where
    text : CString → Document
    number : ℤ → Document
    boolean : Bool → Document
    array : Items → Document
    object : Fields → Document

  pub data Items : Type 0 where
    item_end : Items
    item : Document → Items → Items

  pub data Fields : Type 0 where
    field_end : Fields
    field : CString → Document → Fields → Fields

abbrev pub listed : Items → List Document
listed item_end = []
listed (item d ds) = d ∷ listed ds

abbrev pub entries : Fields → List (CString × Document)
entries field_end = []
entries (field k d fs) = (k, d) ∷ entries fs

abbrev pub get : List (CString × Document) → CString → Option Document
get [] k = none
get ((j, d) ∷ fs) k = if str_eq j k then some d else get fs k

abbrev pub items_of : Document → List Document
items_of (array ds) = listed ds
items_of _ = []

abbrev pub fields_of : Document → List (CString × Document)
fields_of (object fs) = entries fs
fields_of _ = []

abbrev pub text_of : Document → CString
text_of (text s) = s
text_of _ = []

abbrev pub number_of : Document → ℤ
number_of (number i) = i
number_of _ = pos 0

abbrev pub is_object : Document → Bool
is_object (object fs) = true
is_object _ = false

abbrev pub is_array : Document → Bool
is_array (array ds) = true
is_array _ = false

abbrev pub is_text : Document → Bool
is_text (text s) = true
is_text _ = false

abbrev pub is_number : Document → Bool
is_number (number i) = true
is_number _ = false

abbrev pub is_bool : Document → Bool
is_bool (boolean b) = true
is_bool _ = false

abbrev pub is_yes : Document → Bool
is_yes (boolean b) = b
is_yes _ = false

-- Jansson where every buffer holds `d`.
abbrev pub holding : Document → Json
holding d = record {
  Value = Document;
  loadb = λ buf. some d;
  is_object = is_object;
  is_array = is_array;
  is_string = is_text;
  is_integer = is_number;
  is_real = λ v. false;
  is_boolean = is_bool;
  is_true = is_yes;
  string_value = text_of;
  integer_value = number_of;
  object_get = λ v. get (fields_of v);
  object_size = λ v. length (fields_of v);
  object_entries = fields_of;
  array_size = λ v. length (items_of v);
  array_items = items_of;
  object_size_lem = λ v. refl;
  array_size_lem = λ v. refl;
}
