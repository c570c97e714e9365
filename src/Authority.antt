-- ===== src/Authority.antt =====
-- src/visauth.h: the pure rules of the visibility authority. Times are microseconds as signed
-- 64-bit integers, which the mixer's monotonic clock keeps far from their limits.

pub mod Laws
use legion_voice_mixer.Prelude.{
  ℕ, ◌+◌, ◌-◌, ◌*◌, ◌^◌, ◌%◌, Bool, true, false, not, ◌||◌, leb, ltb, ◌==◌, if◌then◌else◌,
}
use legion_voice_mixer.Prelude.Int.{ℤ, pos, ◌-ℤ◌, ltb_ℤ}

abbrev pub heartbeat_ms : ℕ
heartbeat_ms = 1000

abbrev pub admin_timeout_ms : ℕ
admin_timeout_ms = 5000

abbrev pub tick_slip_ms : ℕ
tick_slip_ms = 250

-- The smallest staleness window that a heartbeat interval allows; `uint64_t`, so it wraps.
unfoldable pub stale_min_ms : ℕ → ℕ
stale_min_ms interval_ms = (2 * interval_ms + admin_timeout_ms + tick_slip_ms) % 2 ^ 64

pub data EpochVerdict : Type 0 where
  epoch_equal epoch_adopt epoch_takeover epoch_stale : EpochVerdict

abbrev pub is_zero_ℤ : ℤ → Bool
is_zero_ℤ (pos n) = n == 0
is_zero_ℤ _ = false

-- No accepted message within the window, or the authority said that it stops.
unfoldable pub authority_stale : ℤ → ℤ → ℤ → Bool
unfolding ◌-ℤ◌
authority_stale last_accept_us now_us stale_us =
    is_zero_ℤ last_accept_us || ltb_ℤ stale_us (now_us -ℤ last_accept_us)

unfoldable pub epoch_decide : ℕ → ℤ → ℤ → ℤ → ℕ → EpochVerdict
unfolding authority_stale
epoch_decide stored last_accept_us now_us stale_us incoming =
    if stored == 0 || ltb stored incoming
    then epoch_adopt
    else if incoming == stored
    then epoch_equal
    else if authority_stale last_accept_us now_us stale_us
    then epoch_takeover
    else epoch_stale

-- The row that a display stands in, 1 to 4; only row 4 passes.
unfoldable pub vis_row : Bool → ℕ → ℕ → ℤ → Bool → ℤ → ℤ → ℕ
unfolding ◌-ℤ◌
vis_row armed record_epoch auth_epoch confirmed_us stale now_us stale_us =
    if not armed
    then 1
    else if auth_epoch == 0 || not (record_epoch == auth_epoch)
    then 2
    else if stale || ltb_ℤ stale_us (now_us -ℤ confirmed_us)
    then 3
    else 4

-- Does a heartbeat with this feed age count as live? An absent or a negative age does.
unfoldable pub feed_live : Bool → ℤ → ℕ → Bool
feed_live present (pos age) stale_ms = if not present then true else leb age stale_ms
feed_live present _ stale_ms = true

-- `uint64_t` arithmetic, wrap-around included.
unfoldable pub would_silence_pairs : ℕ → ℕ → ℕ
would_silence_pairs n good =
    let all = if ltb n 2 then 0 else n * (n - 1) % 2 ^ 64 in
    let passing = if ltb good 2 then 0 else good * (good - 1) % 2 ^ 64 in
    (all + 2 ^ 64 - passing) % 2 ^ 64
