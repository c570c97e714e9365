-- ===== src/Hex/Laws.antt =====
-- Round trips between epochs and their 16 digits.
use native.Mathlib.Nat.{pow-suc, one-le-pow}
use legion_voice_mixer.Prelude.{
  ℕ, zero, suc, ◌+◌, ◌*◌, ◌/◌, ◌%◌, ◌^◌, ◌<◌, ◌≤◌, ◌≡◌, ◌≢◌, refl, ap, ◌∙◌, Option, none, some, inl,
  inr, [], ◌∷◌, ◌++◌, CString, arith, length, length-append, Option-cases, ◌==◌, if◌then◌else◌,
}
use native.Mathlib.Decide.{ℕ_discrete}
use legion_voice_mixer.Libc.{to_lower}
use legion_voice_mixer.Hex.{
  hex_digit, push_digit, hex_loop, hex64, nonzero, parse_epoch, hex_char, format_hex, format_epoch,
}

hex_digit-hex_char : (d : ℕ) → d < 16 → hex_digit (hex_char d) ≡ some d
unfolding hex_digit hex_char
hex_digit-hex_char d h = ground arith

pub hex_digit-lt : (c : ℕ) {d : ℕ} → hex_digit c ≡ some d → d < 16
unfolding hex_digit
hex_digit-lt c e = ground arith

hex_char-hex_digit : (c : ℕ) {d : ℕ} → hex_digit c ≡ some d → hex_char d ≡ to_lower c
unfolding hex_digit hex_char
hex_char-hex_digit c e = ground arith

-- The loop on a string with one more digit at its end.
hex_loop-append :
    (s : CString) (c v : ℕ) {w d : ℕ}
    → hex_loop s v ≡ some w
    → hex_digit c ≡ some d
    → hex_loop (s ++ c ∷ []) v ≡ some (push_digit w d)
unfolding hex_loop
hex_loop-append [] c v e h = ground (arith, h)
hex_loop-append (x ∷ s) c v e h = elim (Option-cases (hex_digit x)) [
  | inl n ↦ absurd (ground (arith, n))
  | inr (d, q) ↦ rw (q, hex_loop) (hex_loop-append s c (push_digit v d) (rw (q, hex_loop) at e) h)
]

length-format_hex : (n v : ℕ) → length (format_hex n v) ≡ n
unfolding format_hex
length-format_hex zero v = refl
length-format_hex (suc n) v = omega (
  arith,
  length-append (format_hex n (v / 16)) (hex_char (v % 16) ∷ []),
  length-format_hex n (v / 16),
)

push_digit-split : (v : ℕ) → v < 2 ^ 64 → push_digit (v / 16) (v % 16) ≡ v
unfolding push_digit
push_digit-split v h = omega arith

hex_loop-format_hex : (n v : ℕ) → v < 16 ^ n → v < 2 ^ 64 → hex_loop (format_hex n v) 0 ≡ some v
unfolding format_hex
hex_loop-format_hex zero v h k = unfold hex_loop in ap some (omega arith)
hex_loop-format_hex (suc n) v h k =
    hex_loop-append (format_hex n (v / 16)) (hex_char (v % 16)) 0
      (hex_loop-format_hex n (v / 16) (omega (arith, pow-suc 16 n)) (omega arith))
      (hex_digit-hex_char (v % 16) (omega arith))
    ∙ ap some (push_digit-split v k)

-- An epoch that the mixer formats is one that it parses back, whole and unchanged; zero, which
-- stands for no epoch, is refused.
pub parse_epoch-format_epoch :
    (epoch : ℕ)
    → epoch < 2 ^ 64
    → parse_epoch (format_epoch epoch) ≡ (if epoch == 0 then none else some epoch)
unfolding parse_epoch format_epoch
parse_epoch-format_epoch epoch h =
    rw (length-format_hex 16 epoch, hex_loop-format_hex 16 epoch h h) refl

-- Splitting off the last digit of a hexadecimal string.
pub hex64-format_epoch : (epoch : ℕ) → epoch < 2 ^ 64 → hex64 (format_epoch epoch) ≡ some epoch
unfolding hex64 format_epoch
hex64-format_epoch epoch h = rw (length-format_hex 16 epoch, hex_loop-format_hex 16 epoch h h)

-- The loop accumulates: from the value `v`, n digits give v * 16^n plus their own value.
hex_loop_bound : (s : CString) (v : ℕ) {w : ℕ} → hex_loop s v ≡ some w → v < 2 ^ 64 → w < 2 ^ 64
unfolding hex_loop push_digit
hex_loop_bound [] v e h = ground arith
hex_loop_bound (c ∷ s) v e h = elim (Option-cases (hex_digit c)) [
  | inl n ↦ absurd (ground (arith, n))
  | inr (d, q) ↦
      hex_loop_bound s (push_digit v d) (rw (q, hex_loop) at e) (omega (arith, hex_digit-lt c q))
]

-- The value of a string of digits, in numbers that do not wrap.
abbrev pub hex_value : CString → ℕ → Option ℕ
hex_value [] v = some v
hex_value (c ∷ cs) v = elim (hex_digit c) [ none ↦ none | some d ↦ hex_value cs (v * 16 + d) ]

room_for_digit :
    (v d p : ℕ)
    → d < 16
    → 1 ≤ p
    → (v + 1) * (p * 16) ≤ 2 ^ 64
    → ((v * 16 + d + 1) * p ≤ 2 ^ 64) × (v * 16 < 2 ^ 64)
room_for_digit v d p h one k = grind arith

push_digit_exact : (v d : ℕ) → v * 16 < 2 ^ 64 → push_digit v d ≡ v * 16 + d
unfolding push_digit
push_digit_exact v d h = omega arith

hex_loop-hex_value :
    (s : CString) (v : ℕ) → (v + 1) * 16 ^ length s ≤ 2 ^ 64 → hex_loop s v ≡ hex_value s v
unfolding hex_loop
hex_loop-hex_value [] v h = refl
hex_loop-hex_value (c ∷ s) v h = elim (Option-cases (hex_digit c)) [
  | inl n ↦ ground (arith, n)
  | inr (d, q) ↦
      let fits =
        room_for_digit v d (16 ^ length s) (hex_digit-lt c q)
          (one-le-pow (length s) 16 (omega arith)) (rw pow-suc at h) in
      rw (q, hex_loop)
        (rw (push_digit_exact v d fits.1)
          (rw (q, hex_value) (hex_loop-hex_value s (v * 16 + d) fits.0)))
]

-- Sixteen digits are read exactly: no step of the loop overflows.
pub hex64-hex_value : (s : CString) → length s ≡ 16 → hex64 s ≡ hex_value s 0
unfolding hex64
hex64-hex_value s h = rw h (hex_loop-hex_value s 0 (rw h (omega arith)))

-- The parser of epochs accepts exactly the strings of 16 hexadecimal digits whose value is not zero,
-- and reads them in full.
pub parse_epoch-hex_value :
    (s : CString) → parse_epoch s ≡ (if length s == 16 then nonzero (hex_value s 0) else none)
unfolding parse_epoch
parse_epoch-hex_value s = elim (ℕ_discrete (length s) 16) [
  | yes h ↦ rw (hex_loop-hex_value s 0 (rw h (omega arith)))
  | no h ↦ ground arith
]

nonzero_lem : (o : Option ℕ) (v : ℕ) → nonzero o ≡ some v → v ≢ 0
unfolding nonzero
nonzero_lem none v h = cc
nonzero_lem (some w) v h = ground arith

pub parse_epoch_nonzero : (s : CString) (v : ℕ) → parse_epoch s ≡ some v → v ≢ 0
unfolding parse_epoch
parse_epoch_nonzero s v h = ground (arith, nonzero_lem (hex_loop s 0) v)
