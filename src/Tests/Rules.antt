-- ===== src/Tests/Rules.antt =====
-- The rules of src/visauth.h and the settings at work.
use legion_voice_mixer.Prelude.{◌≡◌, refl, Bool, true, false, List, [], ◌∷◌, some, codes}
use legion_voice_mixer.Libc.{strtol}
use legion_voice_mixer.Hex.{format_epoch}
use legion_voice_mixer.Knobs.{knob_clamped, stale_ms_from_env}

formats_epoch : format_epoch 0xbeef ≡ codes "000000000000beef"
unfolding format_epoch
formats_epoch = refl

abbrev rows : List Bool
rows = true ∷ false ∷ true ∷ []

clamps_stale_ms : stale_ms_from_env (some (codes "5000")) ≡ (knob_clamped, 7250)
unfolding stale_ms_from_env strtol
clamps_stale_ms = refl
