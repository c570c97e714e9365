-- ===== src/Doubles.antt =====
-- The C type `double`, as far as src/possync.c, src/sldata.c and the mixer compute with it: IEEE
-- arithmetic is a parameter, and the code's own decisions and counts are what is modelled.
use legion_voice_mixer.Prelude.{Bool}
use legion_voice_mixer.Prelude.Int.{ℤ}

pub record Doubles : Type 1 where
  pub Real : Type 0
  -- `(double)i`, and a literal with an integer's value.
  pub of_int : ℤ → Real
  pub add : Real → Real → Real
  pub sub : Real → Real → Real
  pub mul : Real → Real → Real
  pub div : Real → Real → Real
  pub sqrt : Real → Real
  -- `a < b`, false when either is not a number.
  pub lt : Real → Real → Bool
  pub is_nan : Real → Bool
