-- ===== src/Authority/Laws.antt =====
-- The rules of the authority against independent descriptions.
use legion_voice_mixer.Prelude.{
  ℕ, suc, ◌+◌, ◌-◌, ◌*◌, ◌%◌, ◌^◌, ◌≤◌, ◌<◌, ◌≡◌, ◌≢◌, ◌↔◌, refl, Bool, true, false, ◌&&◌, List, [],
  ◌∷◌, arith, if◌then◌else◌, length, ltb, zero,
}
use legion_voice_mixer.Prelude.Int.{ℤ, pos, ◌-ℤ◌, ◌≤ℤ◌}
use legion_voice_mixer.Authority.{epoch_stale, epoch_decide, vis_row, would_silence_pairs}

-- A stamped message is refused exactly when it carries an older epoch while the stored authority has
-- spoken within the window; an older epoch is otherwise taken over.
pub epoch_decide-stale_iff :
    (stored incoming : ℕ) (last now window : ℤ)
    → (epoch_decide stored last now window incoming ≡ epoch_stale)
      ↔ ((incoming < stored) × (last ≢ pos 0) × (now -ℤ last ≤ℤ window))
unfolding epoch_decide ◌-ℤ◌
epoch_decide-stale_iff stored incoming last now window = ground arith

-- A display passes (row 4) exactly when it is armed by the current, nonzero epoch, is not marked stale
-- and was confirmed within the window.
pub vis_row-four_iff :
    (armed stale : Bool) (record_epoch auth_epoch : ℕ) (confirmed now window : ℤ)
    → (vis_row armed record_epoch auth_epoch confirmed stale now window ≡ 4) ↔ (
        (armed ≡ true)
        × (auth_epoch ≢ 0)
        × (record_epoch ≡ auth_epoch)
        × (stale ≡ false)
        × (now -ℤ confirmed ≤ℤ window))
unfolding vis_row ◌-ℤ◌
vis_row-four_iff armed stale record_epoch auth_epoch confirmed now window = ground arith

-- The number of `true` in a list.
abbrev pub passing : List Bool → ℕ
passing [] = 0
passing (b ∷ bs) = (if b then 1 else 0) + passing bs

-- The others that a participant in row `b` cannot be paired with.
abbrev pub silent_with : Bool → List Bool → ℕ
silent_with b [] = 0
silent_with b (c ∷ bs) = (if b && c then 0 else 1) + silent_with b bs

-- The ordered pairs of two different participants of which one does not pass, counted one by one.
abbrev pub silent_pairs : List Bool → ℕ
silent_pairs [] = 0
silent_pairs (b ∷ bs) = 2 * silent_with b bs + silent_pairs bs

silent_with-true : (bs : List Bool) → silent_with true bs + passing bs ≡ length bs
silent_with-true [] = refl
silent_with-true (true ∷ bs) = omega (arith, silent_with-true bs)
silent_with-true (false ∷ bs) = omega (arith, silent_with-true bs)

silent_with-false : (bs : List Bool) → silent_with false bs ≡ length bs
silent_with-false [] = refl
silent_with-false (b ∷ bs) = omega (arith, silent_with-false bs)

passing-le : (bs : List Bool) → passing bs ≤ length bs
passing-le [] = omega arith
passing-le (true ∷ bs) = omega (arith, passing-le bs)
passing-le (false ∷ bs) = omega (arith, passing-le bs)

silent_pairs-square :
    (bs : List Bool)
    → silent_pairs bs + passing bs * passing bs + length bs ≡ length bs * length bs + passing bs
silent_pairs-square [] = refl
silent_pairs-square (true ∷ bs) = grind (arith, silent_pairs-square bs, silent_with-true bs)
silent_pairs-square (false ∷ bs) = grind (arith, silent_pairs-square bs, silent_with-false bs)

square_small : (n : ℕ) → n < 2 ^ 32 → n * n < 2 ^ 64
square_small n h = grind arith

square_pred : (n k : ℕ) → n ≡ suc k → n * (n - 1) + n ≡ n * n
square_pred n k h = rw h (let e : suc k - 1 ≡ k = omega arith in rw e (omega arith))

pairs_of : (n : ℕ) → n < 2 ^ 32 → (if ltb n 2 then 0 else n * (n - 1) % 2 ^ 64) + n ≡ n * n
pairs_of zero h = refl
pairs_of (suc zero) h = refl
pairs_of (suc (suc n)) h =
    ground (arith, square_small (suc (suc n)) h, square_pred (suc (suc n)) (suc n) (omega arith))

le_square : (k : ℕ) → k ≤ k * k
le_square zero = omega arith
le_square (suc k) = omega arith

square_mono : (m n : ℕ) → m ≤ n → m * m + n ≤ n * n + m
square_mono m n h = let e : n ≡ m + (n - m) = omega arith in rw e (omega (arith, le_square (n - m)))

pairs_difference : (n m : ℕ) → n < 2 ^ 32 → m ≤ n → would_silence_pairs n m + m * m + n ≡ n * n + m
unfolding would_silence_pairs
pairs_difference n m h k =
    let a : (if ltb n 2 then 0 else n * (n - 1) % 2 ^ 64) + n ≡ n * n = pairs_of n h in
    let b : (if ltb m 2 then 0 else m * (m - 1) % 2 ^ 64) + m ≡ m * m = pairs_of m (omega arith) in
    omega (arith, square_mono m n k, square_small n h)

-- The counter of pairs that enforcement would silence is the number of ordered pairs of different
-- participants in which either side does not stand in row 4, in any room of fewer than 2^32.
pub would_silence_pairs-silent_pairs :
    (rows : List Bool)
    → length rows < 2 ^ 32
    → would_silence_pairs (length rows) (passing rows) ≡ silent_pairs rows
would_silence_pairs-silent_pairs rows h = omega (
  arith,
  silent_pairs-square rows,
  pairs_difference (length rows) (passing rows) h (passing-le rows),
)
