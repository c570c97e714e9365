-- ===== src/Hex.antt =====
-- The 16-digit hexadecimal epochs of the wire: `slv_vis_parse_epoch` and `slv_vis_format_epoch` of
-- src/visauth.h, and `slv_joincap_hex64` of src/joincap.c, which share their digit loop.
pub mod Laws
use legion_voice_mixer.Prelude.{
  ℕ, zero, suc, ◌+◌, ◌-◌, ◌*◌, ◌/◌, ◌%◌, ◌^◌, ◌<◌, ◌≤◌, ◌≡◌, refl, Bool, true, false, ◌&&◌, Option,
  none, some, List, [], ◌∷◌, ◌++◌, CString, arith, length, leb, ltb, ◌==◌, if◌then◌else◌,
}

-- One digit, either case.
unfoldable pub hex_digit : ℕ → Option ℕ
hex_digit c =
    if leb b'0' c && leb c b'9'
    then some (c - b'0')
    else if leb b'a' c && leb c b'f'
    then some (c - b'a' + 10)
    else if leb b'A' c && leb c b'F'
    then some (c - b'A' + 10)
    else none

-- `v = (v << 4) | d` on a `uint64_t`: the shift clears the four bits that `d < 16` fills.
unfoldable pub push_digit : ℕ → ℕ → ℕ
push_digit v d = v * 16 % 2 ^ 64 + d

-- The loop over the digits, `none` at the first byte that is none.
unfoldable pub hex_loop : CString → ℕ → Option ℕ
hex_loop [] v = some v
hex_loop (c ∷ cs) v = elim (hex_digit c) [ none ↦ none | some d ↦ hex_loop cs (push_digit v d) ]

-- `slv_joincap_hex64`: exactly 16 digits; zero is legal.
unfoldable pub hex64 : CString → Option ℕ
unfolding hex_loop
hex64 s = if length s == 16 then hex_loop s 0 else none

unfoldable pub nonzero : Option ℕ → Option ℕ
nonzero none = none
nonzero (some v) = if v == 0 then none else some v

-- `slv_vis_parse_epoch` at a string that is not NULL: exactly 16 digits, and not zero.
unfoldable pub parse_epoch : CString → Option ℕ
unfolding hex_loop nonzero
parse_epoch s = if length s == 16 then nonzero (hex_loop s 0) else none

-- A digit below 16 as its lowercase character.
unfoldable pub hex_char : ℕ → ℕ
hex_char d = if ltb d 10 then d + b'0' else d - 10 + b'a'

-- The last `n` hexadecimal digits of a number, the highest first, zeros included.
unfoldable pub format_hex : ℕ → ℕ → CString
unfolding hex_char
format_hex zero v = []
format_hex (suc n) v = format_hex n (v / 16) ++ hex_char (v % 16) ∷ []

-- `slv_vis_format_epoch`: `snprintf` with `%016` and `PRIx64`.
unfoldable pub format_epoch : ℕ → CString
unfolding format_hex
format_epoch epoch = format_hex 16 epoch
