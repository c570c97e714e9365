-- ===== src/Sldata.antt =====
-- The viewer's messages on the data channel, src/sldata.c and src/sldata.h, over Jansson's values and
-- doubles. `fields_seen`, a mask of bits, is a record of its nine flags.
pub mod Peers
pub mod Parse
pub mod Adjusted
pub mod Bounds
pub mod Merge
pub mod Text
use legion_voice_mixer.Prelude.{ℕ, Bool, false, ◌||◌, List, [], CString}
use legion_voice_mixer.Doubles.{Doubles}
use legion_voice_mixer.Prelude.Int.{pos}

-- SLV_SLDATA_MAX_BYTES
abbrev pub max_bytes : ℕ
max_bytes = 8192

-- SLV_MAX_PEER_ADJ
abbrev pub max_peers : ℕ
max_peers = 32

-- `slv_field`, as the flags of a mask.
pub record Fields : Type 0 where
  pub j : Bool
  pub l : Bool
  pub sp : Bool
  pub sh : Bool
  pub lp : Bool
  pub lh : Bool
  pub m : Bool
  pub ug : Bool
  pub echo : Bool

abbrev pub no_fields : Fields
no_fields = record {
  j = false;
  l = false;
  sp = false;
  sh = false;
  lp = false;
  lh = false;
  m = false;
  ug = false;
  echo = false;
}

-- The mask is not zero.
abbrev pub any_field : Fields → Bool
any_field f = f.j || f.l || f.sp || f.sh || f.lp || f.lh || f.m || f.ug || f.echo

-- `slv_sldata_status`
pub data Status : Type 0 where
  data_ok data_empty data_malformed data_toobig : Status

module _ (doubles : Doubles) where
  -- `slv_vec3`
  pub record Vec3 : Type 0 where
    pub x : doubles.Real
    pub y : doubles.Real
    pub z : doubles.Real

  -- `slv_quat`
  pub record Quat : Type 0 where
    pub x : doubles.Real
    pub y : doubles.Real
    pub z : doubles.Real
    pub w : doubles.Real

  -- `slv_peer_adj`
  pub record PeerAdj : Type 0 where
    pub uuid : CString
    pub has_mute : Bool
    pub muted : Bool
    pub has_gain : Bool
    pub gain : doubles.Real

  -- `slv_sldata`
  pub record SlData : Type 0 where
    pub fields_seen : Fields
    pub sp : Vec3
    pub sh : Quat
    pub lp : Vec3
    pub lh : Quat
    pub ug : doubles.Real
    pub m : Bool
    pub echo : Bool
    pub peers : List PeerAdj

  abbrev pub zero : doubles.Real
  zero = doubles.of_int (pos 0)

  abbrev pub zero_vec : Vec3
  zero_vec = record { x = zero; y = zero; z = zero }

  abbrev pub zero_quat : Quat
  zero_quat = record { x = zero; y = zero; z = zero; w = zero }

  -- The struct after its `memset`.
  abbrev pub zeroed : SlData
  zeroed = record {
    fields_seen = no_fields;
    sp = zero_vec;
    sh = zero_quat;
    lp = zero_vec;
    lh = zero_quat;
    ug = zero;
    m = false;
    echo = false;
    peers = [];
  }
