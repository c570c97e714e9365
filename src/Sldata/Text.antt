-- ===== src/Sldata/Text.antt =====
-- `slv_sldata_fields_str` of src/sldata.c: the names of the seen fields in a buffer of a given size.
use legion_voice_mixer.Prelude.{
  ℕ, ◌+◌, ◌≤◌, ◌<◌, ◌≡◌, refl, Bool, true, false, List, [], ◌∷◌, ◌++◌, CString, codes, length,
  length-append, ltb, if◌then◌else◌, arith,
}
use legion_voice_mixer.Sldata.{Fields}

-- The names in the order of the bits, each with whether its bit is set.
abbrev pub names : Fields → List (Bool × CString)
names f =
    (f.j, codes "j")
    ∷ (f.l, codes "l")
    ∷ (f.sp, codes "sp")
    ∷ (f.sh, codes "sh")
    ∷ (f.lp, codes "lp")
    ∷ (f.lh, codes "lh")
    ∷ (f.m, codes "m")
    ∷ (f.ug, codes "ug")
    ∷ (f.echo, codes "echo")
    ∷ []

-- The comma before every name but the first.
abbrev pub comma : CString → CString
comma [] = []
comma (c ∷ cs) = b',' ∷ []

-- The loop, where `text` is what the buffer holds before its NUL; it stops at the first name that does not
-- fit with its comma and the NUL.
unfoldable pub name_loop : ℕ → List (Bool × CString) → CString → CString
name_loop size [] text = text
name_loop size ((set_bit, name) ∷ rest) text =
    let skipped = name_loop size rest text in
    let added = name_loop size rest (text ++ comma text ++ name) in
    if set_bit
    then if ltb size (length text + (length (comma text) + length name + 1)) then text else added
    else skipped

-- `slv_sldata_fields_str` at a buffer of `size` bytes, at least one.
unfoldable pub fields_str : Fields → ℕ → CString
unfolding name_loop
fields_str f size = name_loop size (names f) []

-- The names of the set bits joined by commas, after `text`.
abbrev pub joined : List (Bool × CString) → CString → CString
joined [] text = text
joined ((set_bit, name) ∷ rest) text =
    joined rest (if set_bit then text ++ comma text ++ name else text)

length-add :
    (text name : CString)
    → length (text ++ comma text ++ name) ≡ length text + length (comma text) + length name
length-add text name =
    omega (arith, length-append (text ++ comma text) name, length-append text (comma text))

name_loop_bounded :
    (size : ℕ) (ns : List (Bool × CString)) (text : CString)
    → length text < size
    → length (name_loop size ns text) < size
unfolding name_loop
name_loop_bounded size [] text h = h
name_loop_bounded size ((set_bit, name) ∷ rest) text h = ground (
  arith,
  name_loop_bounded size rest text h,
  length-add text name,
  name_loop_bounded size rest (text ++ comma text ++ name),
)

joined-longer :
    (ns : List (Bool × CString)) (text : CString) → length text ≤ length (joined ns text)
joined-longer [] text = omega arith
joined-longer ((true, name) ∷ rest) text =
    omega (arith, joined-longer rest (text ++ comma text ++ name), length-add text name)
joined-longer ((false, name) ∷ rest) text = joined-longer rest text

name_loop-joined :
    (size : ℕ) (ns : List (Bool × CString)) (text : CString)
    → length (joined ns text) < size
    → name_loop size ns text ≡ joined ns text
unfolding name_loop
name_loop-joined size [] text h = refl
name_loop-joined size ((true, name) ∷ rest) text h = ground (
  arith,
  joined-longer rest (text ++ comma text ++ name),
  length-add text name,
  name_loop-joined size rest (text ++ comma text ++ name) h,
)
name_loop-joined size ((false, name) ∷ rest) text h = name_loop-joined size rest text h

-- The text and its NUL always fit the buffer, and in a buffer that is large enough for all of them it is
-- the names of the seen fields, in the order of their bits, joined by commas.
pub fields_str-joined :
    (f : Fields) (size : ℕ)
    → 0 < size
    → (length (fields_str f size) < size)
      × (length (joined (names f) []) < size → fields_str f size ≡ joined (names f) [])
unfolding fields_str
fields_str-joined f size h =
    (name_loop_bounded size (names f) [] h, name_loop-joined size (names f) [])
