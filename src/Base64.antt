-- ===== src/Base64.antt =====
-- `slv_b64url_decode` of src/joincap.c: base64url without padding, into a bounded buffer.
pub mod Laws
pub mod Bounds
use legion_voice_mixer.Prelude.{
  ℕ, ◌+◌, ◌-◌, ◌*◌, ◌/◌, ◌%◌, ◌^◌, Bool, not, ◌&&◌, ◌||◌, List, [], ◌∷◌, ◌++◌, Option, none, some,
  CString, length, leb, ltb, ◌==◌, if◌then◌else◌,
}

-- The table `tbl`: zero for every character outside the alphabet.
unfoldable pub b64_value : ℕ → ℕ
b64_value c =
    if leb b'A' c && leb c b'Z'
    then c - 65
    else if leb b'a' c && leb c b'z'
    then c - 71
    else if leb b'0' c && leb c b'9'
    then c + 4
    else if c == b'-'
    then 62
    else if c == b'_'
    then 63
    else 0

-- The locals of the loop: the `uint32_t` accumulator, its unread bits, and the bytes written.
pub record Decoder : Type 0 where
  pub acc : ℕ
  pub bits : ℕ
  pub out : List ℕ

-- Write a byte out when eight bits are there; `none` when the buffer of `size` bytes is full.
unfoldable pub b64_emit : ℕ → Decoder → Option Decoder
b64_emit size d =
    if leb 8 d.bits
    then if leb size (length d.out)
      then none
      else some
          (record d { bits = d.bits - 8; out = d.out ++ (d.acc / 2 ^ (d.bits - 8) % 256) ∷ [] })
    else some d

-- One character: `acc << 6` leaves six bits clear for the value.
unfoldable pub b64_step : ℕ → ℕ → Decoder → Option Decoder
unfolding b64_value b64_emit
b64_step size c d =
    if b64_value c == 0 && not (c == b'A')
    then none
    else b64_emit size (record d { acc = d.acc * 64 % 2 ^ 32 + b64_value c; bits = d.bits + 6 })

unfoldable pub b64_loop : ℕ → CString → Decoder → Option Decoder
unfolding b64_step
b64_loop size [] d = some d
b64_loop size (c ∷ cs) d = elim (b64_step size c d) [ none ↦ none | some d' ↦ b64_loop size cs d' ]

-- Leftover bits must be zero padding, never data.
unfoldable pub b64_finish : Option Decoder → Option (List ℕ)
b64_finish none = none
b64_finish (some d) = if ltb 0 d.bits && not (d.acc % 2 ^ d.bits == 0) then none else some d.out

unfoldable pub b64url_decode : ℕ → CString → Option (List ℕ)
unfolding b64_loop b64_finish
b64url_decode size input =
    if length input == 0 || length input % 4 == 1
    then none
    else b64_finish (b64_loop size input (record { acc = 0; bits = 0; out = [] }))
