-- ===== src/Libc.antt =====
-- The parts of <stdlib.h> and <strings.h> that src/visauth.h, src/roomsize.h and src/joincap.c call,
-- on C strings as lists of bytes, in the C locale.
use legion_voice_mixer.Prelude.{
  ℕ, ◌+◌, ◌-◌, ◌*◌, ◌^◌, ◌≡◌, refl, Bool, true, false, ◌&&◌, ◌||◌, [], ◌∷◌, map, CString, codes,
  str_eq, leb, ltb, ◌==◌, if◌then◌else◌,
}
use legion_voice_mixer.Prelude.Int.{ℤ, pos, negsuc}

abbrev pub is_digit : ℕ → Bool
is_digit c = leb b'0' c && leb c b'9'

-- `isspace`: the blank, and tab to carriage return.
abbrev pub is_space : ℕ → Bool
is_space c = c == b' ' || (leb 9 c && leb c 13)

unfoldable pub skip_space : CString → CString
skip_space [] = []
skip_space (c ∷ cs) = if is_space c then skip_space cs else c ∷ cs

-- The value of the leading digits, after `acc`, and what follows them.
unfoldable pub scan_digits : CString → ℕ → ℕ × CString
scan_digits [] acc = (acc, [])
scan_digits (c ∷ cs) acc =
    let rest = scan_digits cs (acc * 10 + (c - b'0')) in if is_digit c then rest else (acc, c ∷ cs)

abbrev pub starts_digit : CString → Bool
starts_digit [] = false
starts_digit (c ∷ cs) = is_digit c

-- An optional sign: whether it is a minus, and what follows.
unfoldable pub scan_sign : CString → Bool × CString
scan_sign [] = (false, [])
scan_sign (c ∷ cs) =
    if c == b'-' then (true, cs) else if c == b'+' then (false, cs) else (false, c ∷ cs)

-- What a call of `strtol` leaves: its value, the text at `*end`, whether it read any digit
-- (`end != text`), and whether it set `errno` to ERANGE.
pub record Strtol : Type 0 where
  pub value : ℤ
  pub rest : CString
  pub parsed : Bool
  pub out_of_range : Bool

-- A magnitude with its sign, held within a 64-bit `long`.
unfoldable pub clamp_long : Bool → ℕ → CString → Strtol
clamp_long true n rest =
    if ltb (2 ^ 63) n
    then record { value = negsuc (2 ^ 63 - 1); rest = rest; parsed = true; out_of_range = true }
    else record {
      value = if n == 0 then pos 0 else negsuc (n - 1);
      rest = rest;
      parsed = true;
      out_of_range = false;
    }
clamp_long false n rest =
    if ltb (2 ^ 63 - 1) n
    then record { value = pos (2 ^ 63 - 1); rest = rest; parsed = true; out_of_range = true }
    else record { value = pos n; rest = rest; parsed = true; out_of_range = false }

-- `strtol(text, &end, 10)`, and `strtoll` likewise.
unfoldable pub strtol : CString → Strtol
unfolding skip_space scan_digits scan_sign clamp_long
strtol text =
    let (minus, body) = scan_sign (skip_space text) in
    let (n, rest) = scan_digits body 0 in
    if starts_digit body
    then clamp_long minus n rest
    else record { value = pos 0; rest = text; parsed = false; out_of_range = false }

abbrev pub to_lower : ℕ → ℕ
to_lower c = if leb b'A' c && leb c b'Z' then c + 32 else c

-- `strcasecmp(a, b) == 0`
unfoldable pub str_case_eq : CString → CString → Bool
unfolding str_eq
str_case_eq a b = str_eq (map to_lower a) (map to_lower b)

strtol_negative : (strtol (codes " -42x")).value ≡ negsuc 41
unfolding strtol
strtol_negative = refl

strtol_saturates : (strtol (codes "99999999999999999999")).value ≡ pos (2 ^ 63 - 1)
unfolding strtol
strtol_saturates = refl
