-- ===== src/Knobs.antt =====
-- Settings read from the environment: `slv_vis_fail_closed_from_env` and `slv_vis_stale_ms_from_env`
-- of src/visauth.h, and `slv_room_size_parse` of src/roomsize.h. An unset variable is `none`.
pub mod Laws
use legion_voice_mixer.Prelude.{
  ℕ, ◌%◌, ◌^◌, Bool, true, false, not, ◌||◌, Option, none, some, [], ◌∷◌, CString, codes, ltb,
  if◌then◌else◌,
}
use legion_voice_mixer.Prelude.Int.{ℤ, pos, negsuc, ltb_ℤ, pos_part}
use legion_voice_mixer.Libc.{Strtol, strtol, str_case_eq}
use legion_voice_mixer.Authority.{heartbeat_ms, stale_min_ms}

abbrev pub is_empty : CString → Bool
is_empty [] = true
is_empty (c ∷ cs) = false

pub data KnobStatus : Type 0 where
  knob_ok knob_invalid knob_clamped : KnobStatus

abbrev pub stale_ms_default : ℕ
stale_ms_default = 8000

abbrev pub stale_ms_max : ℕ
stale_ms_max = 600000

-- JS_VIS_FAIL_CLOSED: the status, and what `*out` holds afterwards.
unfoldable pub fail_closed_from_env : Option CString → KnobStatus × Bool
fail_closed_from_env none = (knob_ok, false)
fail_closed_from_env (some v) =
    if is_empty v
    then (knob_ok, false)
    else if str_case_eq v (codes "1")
        || str_case_eq v (codes "true")
        || str_case_eq v (codes "yes")
        || str_case_eq v (codes "on")
    then (knob_ok, true)
    else if str_case_eq v (codes "0")
        || str_case_eq v (codes "false")
        || str_case_eq v (codes "no")
        || str_case_eq v (codes "off")
    then (knob_ok, false)
    else (knob_invalid, false)

-- What the caller does with the number that `strtol` read. The cast to `unsigned` loses nothing below
-- the largest accepted value.
stale_ms_verdict : Strtol → KnobStatus × ℕ
unfolding stale_min_ms
stale_ms_verdict r =
    if not (is_empty r.rest) || not (ltb_ℤ (pos 0) r.value) || ltb_ℤ (pos stale_ms_max) r.value
    then (knob_invalid, stale_ms_default)
    else if ltb (pos_part r.value) (stale_min_ms heartbeat_ms)
    then (knob_clamped, stale_min_ms heartbeat_ms % 2 ^ 32)
    else (knob_ok, pos_part r.value % 2 ^ 32)

-- JS_VIS_STALE_MS
unfoldable pub stale_ms_from_env : Option CString → KnobStatus × ℕ
unfolding stale_ms_verdict
stale_ms_from_env none = (knob_ok, stale_ms_default)
stale_ms_from_env (some v) =
    if is_empty v then (knob_ok, stale_ms_default) else stale_ms_verdict (strtol v)

pub data RoomSizeVerdict : Type 0 where
  size_unset size_ok size_invalid : RoomSizeVerdict

abbrev pub room_size_min : ℕ
room_size_min = 2

abbrev pub room_size_default : ℕ
room_size_default = 50

-- The default, held to the compiled maximum.
abbrev pub default_size : ℕ → ℕ
default_size max = if ltb max room_size_default then max else room_size_default

room_size_verdict : ℕ → Strtol → RoomSizeVerdict × ℕ
room_size_verdict max r =
    if r.out_of_range
      || not r.parsed
      || not (is_empty r.rest)
      || ltb_ℤ r.value (pos room_size_min)
      || ltb_ℤ (pos max) r.value
    then (size_invalid, default_size max)
    else (size_ok, pos_part r.value)

-- JS_ROOM_SIZE: the verdict, and the room size to use.
unfoldable pub room_size_parse : Option CString → ℕ → RoomSizeVerdict × ℕ
unfolding room_size_verdict
room_size_parse none max = (size_unset, default_size max)
room_size_parse (some text) max =
    if is_empty text then (size_unset, default_size max) else room_size_verdict max (strtol text)
