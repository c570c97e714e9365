-- ===== src/Base64/Laws.antt =====
-- Decoding undoes the encoding of RFC 4648, section 5, without padding.
use legion_voice_mixer.Prelude.{
  ℕ, ◌+◌, ◌-◌, ◌*◌, ◌/◌, ◌%◌, ◌^◌, ◌≤◌, ◌<◌, ◌≡◌, ◌≢◌, refl, sym, ap, ◌∙◌, false, not, ◌&&◌, List,
  [], ◌∷◌, ◌++◌, none, some, CString, length, length-append, ltb, ◌==◌, if◌then◌else◌, arith,
}
use mathlib.Core.List.{append_assoc, append-nil}
use legion_voice_mixer.Base64.{
  b64_value, Decoder, b64_emit, b64_step, b64_loop, b64_finish, b64url_decode,
}

-- The character of a value below 64.
unfoldable pub b64_char : ℕ → ℕ
b64_char v =
    if ltb v 26
    then v + 65
    else if ltb v 52
    then v + 71
    else if ltb v 62
    then v - 4
    else if v == 62
    then b'-'
    else b'_'

b64_char_valid :
    (v : ℕ)
    → v < 64
    → (b64_value (b64_char v) ≡ v)
      × ((b64_value (b64_char v) == 0 && not (b64_char v == b'A')) ≡ false)
unfolding b64_value b64_char
b64_char_valid v h = ground arith

-- Three bytes become four characters; one or two at the end become two or three.
unfoldable pub b64url_encode : List ℕ → CString
unfolding b64_char
b64url_encode [] = []
b64url_encode (a ∷ []) = b64_char (a / 4) ∷ b64_char (a % 4 * 16) ∷ []
b64url_encode (a ∷ b ∷ []) =
    b64_char (a / 4) ∷ b64_char (a % 4 * 16 + b / 16) ∷ b64_char (b % 16 * 4) ∷ []
b64url_encode (a ∷ b ∷ c ∷ rest) =
    b64_char (a / 4)
    ∷ b64_char (a % 4 * 16 + b / 16)
    ∷ b64_char (b % 16 * 4 + c / 64)
    ∷ b64_char (c % 64)
    ∷ b64url_encode rest

abbrev pub Bytes : List ℕ → Type 0
Bytes [] = Unit {0}
Bytes (b ∷ bs) = (b < 256) × Bytes bs

-- A step at the character of a value.
step-b64_char :
    (size v : ℕ) (d : Decoder)
    → v < 64
    → b64_step size (b64_char v) d
      ≡ b64_emit size (record d { acc = d.acc * 64 % 2 ^ 32 + v; bits = d.bits + 6 })
unfolding b64_step
step-b64_char size v d h = rw ((b64_char_valid v h).1, (b64_char_valid v h).0)

loop-b64_char :
    (size v : ℕ) (cs : CString) (d : Decoder)
    → v < 64
    → b64_loop size (b64_char v ∷ cs) d
      ≡ (elim (b64_emit size (record d { acc = d.acc * 64 % 2 ^ 32 + v; bits = d.bits + 6 })) [
        | none ↦ none
        | some d' ↦ b64_loop size cs d'
      ])
unfolding b64_loop
loop-b64_char size v cs d h = rw (step-b64_char size v d h, b64_loop)

abbrev pub at : ℕ → ℕ → List ℕ → Decoder
at acc bits out = record { acc = acc; bits = bits; out = out }

-- A character that completes no byte, and one that completes a byte.
loop_quiet :
    (size v acc : ℕ) (out : List ℕ) (cs : CString)
    → v < 64
    → b64_loop size (b64_char v ∷ cs) (at acc 0 out)
      ≡ b64_loop size cs (at (acc * 64 % 2 ^ 32 + v) 6 out)
unfolding b64_emit
loop_quiet size v acc out cs h = rw (loop-b64_char size v cs (at acc 0 out) h)

emit_byte :
    (size acc bits byte : ℕ) (out : List ℕ)
    → 8 ≤ bits
    → length out < size
    → acc / 2 ^ (bits - 8) % 256 ≡ byte
    → b64_emit size (at acc bits out) ≡ some (at acc (bits - 8) (out ++ byte ∷ []))
unfolding b64_emit
emit_byte size acc bits byte out h room e = rw e (ground arith)

loop_byte :
    (size v acc bits byte : ℕ) (out : List ℕ) (cs : CString)
    → v < 64
    → 8 ≤ bits + 6
    → length out < size
    → (acc * 64 % 2 ^ 32 + v) / 2 ^ (bits + 6 - 8) % 256 ≡ byte
    → b64_loop size (b64_char v ∷ cs) (at acc bits out)
      ≡ b64_loop size cs (at (acc * 64 % 2 ^ 32 + v) (bits + 6 - 8) (out ++ byte ∷ []))
loop_byte size v acc bits byte out cs h k room e =
    loop-b64_char size v cs (at acc bits out) h
    ∙ rw (emit_byte size (acc * 64 % 2 ^ 32 + v) (bits + 6) byte out k room e)

-- The accumulator after a character.
abbrev shift : ℕ → ℕ → ℕ
shift acc v = acc * 64 % 2 ^ 32 + v

-- A group of four characters writes its three bytes, whatever the accumulator held.
loop_group :
    (size a b c acc : ℕ) (out : List ℕ) (cs : CString)
    → a < 256
    → b < 256
    → c < 256
    → length out + 3 ≤ size
    → b64_loop size
        (b64_char (a / 4)
          ∷ b64_char (a % 4 * 16 + b / 16)
          ∷ b64_char (b % 16 * 4 + c / 64)
          ∷ b64_char (c % 64)
          ∷ cs)
        (at acc 0 out)
      ≡ b64_loop size cs (
          at
            (shift
              (shift (shift (shift acc (a / 4)) (a % 4 * 16 + b / 16)) (b % 16 * 4 + c / 64))
              (c % 64))
            0
            (((out ++ a ∷ []) ++ b ∷ []) ++ c ∷ []))
loop_group size a b c acc out cs ha hb hc room =
    loop_quiet size (a / 4) acc out _ (omega arith)
    ∙ loop_byte size (a % 4 * 16 + b / 16) _ 6 a out _ (omega arith) (omega arith) (omega arith)
        (omega arith)
    ∙ loop_byte size (b % 16 * 4 + c / 64) _ 4 b (out ++ a ∷ []) _ (omega arith) (omega arith)
        (omega (arith, length-append out (a ∷ []))) (omega arith)
    ∙ loop_byte size (c % 64) _ 2 c ((out ++ a ∷ []) ++ b ∷ []) cs (omega arith) (omega arith)
        (omega (arith, length-append out (a ∷ []), length-append (out ++ a ∷ []) (b ∷ [])))
        (omega arith)

finish_clean :
    (acc bits : ℕ) (out : List ℕ)
    → acc % 2 ^ bits ≡ 0
    → b64_finish (some (at acc bits out)) ≡ some out
unfolding b64_finish
finish_clean acc bits out h = rw h (ground arith)

b64_loop_nil : (size : ℕ) (d : Decoder) → b64_loop size [] d ≡ some d
unfolding b64_loop
b64_loop_nil size d = refl

decode_from :
    (size : ℕ) (bytes : List ℕ) (acc : ℕ) (out : List ℕ)
    → Bytes bytes
    → length out + length bytes ≤ size
    → b64_finish (b64_loop size (b64url_encode bytes) (at acc 0 out)) ≡ some (out ++ bytes)
unfolding b64url_encode
decode_from size [] acc out h room =
    ap b64_finish (b64_loop_nil size (at acc 0 out))
    ∙ finish_clean acc 0 out (omega arith)
    ∙ ap some (sym (append-nil out))
decode_from size (a ∷ []) acc out h room =
    ap b64_finish (
      loop_quiet size (a / 4) acc out _ (omega arith)
      ∙ loop_byte size (a % 4 * 16) _ 6 a out [] (omega arith) (omega arith) (omega arith)
          (omega arith)
      ∙ b64_loop_nil size (at (shift (shift acc (a / 4)) (a % 4 * 16)) 4 (out ++ a ∷ [])))
    ∙ finish_clean (shift (shift acc (a / 4)) (a % 4 * 16)) 4 (out ++ a ∷ []) (omega arith)
decode_from size (a ∷ b ∷ []) acc out h room =
    ap b64_finish (
      loop_quiet size (a / 4) acc out _ (omega arith)
      ∙ loop_byte size (a % 4 * 16 + b / 16) _ 6 a out _ (omega arith) (omega arith) (omega arith)
          (omega arith)
      ∙ loop_byte size (b % 16 * 4) _ 4 b (out ++ a ∷ []) [] (omega arith) (omega arith)
          (omega (arith, length-append out (a ∷ []))) (omega arith)
      ∙ b64_loop_nil size (
          at (shift (shift (shift acc (a / 4)) (a % 4 * 16 + b / 16)) (b % 16 * 4)) 2
            ((out ++ a ∷ []) ++ b ∷ [])))
    ∙ finish_clean (shift (shift (shift acc (a / 4)) (a % 4 * 16 + b / 16)) (b % 16 * 4)) 2
        ((out ++ a ∷ []) ++ b ∷ []) (omega arith)
    ∙ ap some (append_assoc out (a ∷ []) (b ∷ []))
decode_from size (a ∷ b ∷ c ∷ rest) acc out h room =
    ap b64_finish
      (loop_group size a b c acc out (b64url_encode rest) h.0 h.1.0 h.1.1.0 (omega arith))
    ∙ decode_from size rest _ (((out ++ a ∷ []) ++ b ∷ []) ++ c ∷ []) h.1.1.1 (
        omega (
          arith,
          length-append out (a ∷ []),
          length-append (out ++ a ∷ []) (b ∷ []),
          length-append ((out ++ a ∷ []) ++ b ∷ []) (c ∷ []),
        ))
    ∙ ap some (simp append_assoc)

pub length-encode :
    (bytes : List ℕ)
    → (length (b64url_encode bytes) % 4 ≢ 1) × (length bytes ≢ 0 → length (b64url_encode bytes) ≢ 0)
unfolding b64url_encode
length-encode [] = omega arith
length-encode (a ∷ []) = omega arith
length-encode (a ∷ b ∷ []) = omega arith
length-encode (a ∷ b ∷ c ∷ rest) = omega (arith, (length-encode rest).0)

-- Whatever bytes the sim encodes, at least one and no more than the buffer holds, the decoder gives back
-- the same ones.
pub b64url_decode-encode :
    (size : ℕ) (bytes : List ℕ)
    → Bytes bytes
    → length bytes ≢ 0
    → length bytes ≤ size
    → b64url_decode size (b64url_encode bytes) ≡ some bytes
unfolding b64url_decode
b64url_decode-encode size bytes h ne room =
    ground (arith, length-encode bytes, decode_from size bytes 0 [] h (omega arith))
