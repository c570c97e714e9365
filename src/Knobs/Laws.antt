-- ===== src/Knobs/Laws.antt =====
-- What the settings can come out as, for every text.
use legion_voice_mixer.Prelude.{ℕ, ◌≤◌, ◌≡◌, ◌⊎◌, Option, none, some, CString, arith}
use legion_voice_mixer.Libc.{strtol, Strtol}
use legion_voice_mixer.Knobs.{
  stale_ms_from_env, stale_ms_verdict, stale_ms_max, size_ok, room_size_parse, room_size_verdict,
  room_size_min, default_size,
}

stale_ms_verdict_range :
    (r : Strtol) → (7250 ≤ (stale_ms_verdict r).1) × ((stale_ms_verdict r).1 ≤ stale_ms_max)
unfolding stale_ms_verdict
stale_ms_verdict_range r = ground arith

-- Whatever the environment holds, the staleness window in use meets the staleness constraint for the
-- sim's heartbeat (2 x 1000 + 5000 + 250 ms) and is at most ten minutes.
pub stale_ms_from_env_range :
    (v : Option CString)
    → (7250 ≤ (stale_ms_from_env v).1) × ((stale_ms_from_env v).1 ≤ stale_ms_max)
unfolding stale_ms_from_env
stale_ms_from_env_range none = omega arith
stale_ms_from_env_range (some v) = ground (arith, stale_ms_verdict_range (strtol v))

room_size_verdict_range :
    (max : ℕ) (r : Strtol)
    → room_size_min ≤ max
    → (room_size_min ≤ (room_size_verdict max r).1) × ((room_size_verdict max r).1 ≤ max)
unfolding room_size_verdict
room_size_verdict_range max r h = ground arith

-- Whatever the environment holds, a room admits at least two participants and never more than the
-- mix arrays were compiled for; a number other than the default is used only with the verdict "ok".
pub room_size_parse_range :
    (text : Option CString) (max : ℕ)
    → room_size_min ≤ max
    → (room_size_min ≤ (room_size_parse text max).1)
      × ((room_size_parse text max).1 ≤ max)
      × (((room_size_parse text max).0 ≡ size_ok)
          ⊎ ((room_size_parse text max).1 ≡ default_size max))
unfolding room_size_parse room_size_verdict
room_size_parse_range none max h = ground arith
room_size_parse_range (some text) max h = ground (arith, room_size_verdict_range max (strtol text))
