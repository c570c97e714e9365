-- ===== src/Base64/Bounds.antt =====
-- How much the decoder writes and the encoder produces.
use legion_voice_mixer.Prelude.{
  ℕ, ◌+◌, ◌-◌, ◌*◌, ◌/◌, ◌%◌, ◌^◌, ◌≤◌, ◌<◌, ◌≡◌, ◌≢◌, Option-cases, inl, inr, List, [], ◌∷◌, ◌++◌,
  some, CString, length, length-append, arith,
}
use legion_voice_mixer.Base64.{b64_value, Decoder, b64_step, b64_loop, b64url_decode}
use legion_voice_mixer.Base64.Laws.{Bytes, at, b64_char, b64url_encode, length-encode}

Bytes-snoc : (bytes : List ℕ) (b : ℕ) → Bytes bytes → b < 256 → Bytes (bytes ++ b ∷ [])
Bytes-snoc [] b h k = (k, tt)
Bytes-snoc (a ∷ bytes) b h k = (h.0, Bytes-snoc bytes b h.1 k)

-- The bytes written so far fit the buffer.
abbrev Fits : ℕ → Decoder → Type 0
Fits size d = (length d.out ≤ size) × Bytes d.out

step-Fits :
    (size c : ℕ) (d : Decoder) {d' : Decoder}
    → Fits size d
    → b64_step size c d ≡ some d'
    → Fits size d'
unfolding b64_step
step-Fits size c d f e =
    ground (arith, length-append d.out (byte ∷ []), Bytes-snoc d.out byte f.1 (omega arith))
  where
    byte : ℕ
    byte = (d.acc * 64 % 2 ^ 32 + b64_value c) / 2 ^ (d.bits + 6 - 8) % 256

loop-Fits :
    (size : ℕ) (cs : CString) (d : Decoder) {d' : Decoder}
    → Fits size d
    → b64_loop size cs d ≡ some d'
    → Fits size d'
unfolding b64_loop
loop-Fits size [] d f e = ground arith
loop-Fits size (c ∷ cs) d f e = elim (Option-cases (b64_step size c d)) [
  | inl n ↦ absurd (ground (arith, n))
  | inr (d', q) ↦ loop-Fits size cs d' (step-Fits size c d f q) (rw (q, b64_loop) at e)
]

-- The buffer is never overrun, and what it holds are bytes.
pub b64url_decode_bounded :
    (size : ℕ) (input : CString) {bytes : List ℕ}
    → b64url_decode size input ≡ some bytes
    → (length bytes ≤ size) × Bytes bytes
unfolding b64url_decode
b64url_decode_bounded size input e = elim (Option-cases (b64_loop size input (at 0 0 []))) [
  | inl n ↦ absurd (ground (arith, n))
  | inr (d, q) ↦ ground (arith, q, loop-Fits size input (at 0 0 []) (omega arith) q)
]

-- The length of an encoding, and that no dot stands in it.
pub length-encode-le : (bytes : List ℕ) → 3 * length (b64url_encode bytes) ≤ 4 * length bytes + 2
unfolding b64url_encode
length-encode-le [] = omega arith
length-encode-le (a ∷ []) = omega arith
length-encode-le (a ∷ b ∷ []) = omega arith
length-encode-le (a ∷ b ∷ c ∷ rest) = omega (arith, length-encode-le rest)

pub length-encode-pos : (bytes : List ℕ) → length bytes ≢ 0 → 0 < length (b64url_encode bytes)
length-encode-pos bytes h = omega (arith, (length-encode bytes).1 h)

abbrev pub NoDot : CString → Type 0
NoDot [] = Unit {0}
NoDot (c ∷ cs) = (c ≢ b'.') × NoDot cs

b64_char-ne-dot : (v : ℕ) → b64_char v ≢ b'.'
unfolding b64_char
b64_char-ne-dot v = ground arith

pub b64url_encode-NoDot : (bytes : List ℕ) → NoDot (b64url_encode bytes)
unfolding b64url_encode
b64url_encode-NoDot [] = tt
b64url_encode-NoDot (a ∷ []) = (b64_char-ne-dot (a / 4), (b64_char-ne-dot (a % 4 * 16), tt))
b64url_encode-NoDot (a ∷ b ∷ []) = (
  b64_char-ne-dot (a / 4),
  (b64_char-ne-dot (a % 4 * 16 + b / 16), (b64_char-ne-dot (b % 16 * 4), tt)),
)
b64url_encode-NoDot (a ∷ b ∷ c ∷ rest) = (
  b64_char-ne-dot (a / 4),
  (
    b64_char-ne-dot (a % 4 * 16 + b / 16),
    (b64_char-ne-dot (b % 16 * 4 + c / 64), (b64_char-ne-dot (c % 64), b64url_encode-NoDot rest)),
  ),
)
