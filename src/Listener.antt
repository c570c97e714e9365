-- ===== src/Listener.antt =====
-- What a session keeps of single sources as a listener, in src/janus_slvoice.c: its own mutes and gains
-- (`Control`), the latches of the distance cull (`Cull`), and the dots that it is sent (`Dots`).
pub mod Control
pub mod Cull
pub mod Dots
pub mod Seen
pub mod Latch
use legion_voice_mixer.Prelude.{ℕ, Bool, CString}
use legion_voice_mixer.Doubles.{Doubles}

-- SLV_MAX_MIX
abbrev pub max_mix : ℕ
max_mix = 110

-- `slv_cull_hyst`
pub record CullHyst : Type 0 where
  pub uuid : CString
  pub culled : Bool
  pub seen_tick : ℕ

module _ (doubles : Doubles) where
  -- `slv_peer_ctl`
  pub record PeerCtl : Type 0 where
    pub uuid : CString
    pub muted : Bool
    pub has_gain : Bool
    pub gain : doubles.Real
