-- ===== src/Positions.antt =====
-- The positions that the sim reports, src/possync.c and src/possync.h: `Parse` reads a request, `Store` is
-- the open-addressing table of a room's points, `Observe` counts a tick's comparison with a viewer's own
-- claim, and `Handle` is the request's arm of src/janus_slvoice.c.
pub mod Parse
pub mod Bounds
pub mod Store
pub mod Probe
pub mod Invariant
pub mod Lookup
pub mod Applied
pub mod Handle
pub mod Sequence
pub mod Observe
pub mod Totals
use legion_voice_mixer.Prelude.{ℕ, ◌-◌, ◌^◌, Bool, List, CString}
use legion_voice_mixer.Prelude.Int.{ℤ}

-- SLV_POS_MAX_BYTES
abbrev pub max_bytes : ℕ
max_bytes = 65536

-- SLV_POS_MAX_ENTRIES
abbrev pub max_entries : ℕ
max_entries = 128

-- SLV_POS_COORD_MAX
abbrev pub coord_max : ℕ
coord_max = 2147483647

-- SLV_POS_SPEED_MAX_CMS
abbrev pub speed_max : ℕ
speed_max = 200000

-- SLV_POS_TOL_MAX_CM
abbrev pub tol_max : ℕ
tol_max = 500000

-- SLV_POS_STORE_MAX
abbrev pub store_max : ℕ
store_max = 256

-- SLV_POS_SLOTS
abbrev pub slots : ℕ
slots = 512

-- SLV_POS_STALE_MS
abbrev pub stale_ms : ℕ
stale_ms = 6000

-- INT64_MAX
abbrev pub int64_max : ℕ
int64_max = 2 ^ 63 - 1

-- `slv_pos_status`
pub data Status : Type 0 where
  pos_ok pos_malformed pos_toobig : Status

-- `slv_pos_entry`
pub record PosEntry : Type 0 where
  pub uuid : CString
  pub x : ℤ
  pub y : ℤ
  pub z : ℤ
  pub speed_cms : ℤ
  pub tol_cm : ℤ

-- `slv_posbatch`
pub record PosBatch : Type 0 where
  pub room : ℤ
  pub seq : ℤ
  pub full : Bool
  pub enforce_requested : Bool
  pub has_epoch : Bool
  pub room_epoch : ℕ
  pub entries : List PosEntry
  pub n_skipped : ℕ
