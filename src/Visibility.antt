-- ===== src/Visibility.antt =====
-- The visibility feed of src/janus_slvoice.c: what a room holds of it, and the rows that its listeners
-- stand in. `Channels` merges a batch into one listener's sets, `Batch` applies it to the room,
-- `Authority` is the check of its stamp, and `Join` gives a joining session its columns. A NULL table is
-- the empty one. All of it runs under the room's lock, so a call is one step.
pub mod Channels
pub mod Merge
pub mod Transitions
pub mod Batch
pub mod Applied
pub mod Deferral
pub mod Authority
pub mod Settled
pub mod Guard
pub mod Bases
pub mod Join
pub mod Late
pub mod Handle
pub mod Heartbeat
pub mod Beats
pub mod Sender
pub mod Reports
pub mod Kept
pub mod Effect
pub mod Rounds
pub mod Apart
use legion_voice_mixer.Prelude.{
  ℕ, ◌*◌, Bool, true, false, ◌&&◌, List, Option, none, some, CString, ◌==◌,
}
use legion_voice_mixer.Prelude.Int.{ℤ, pos, ◌*ℤ◌}
use legion_voice_mixer.Glib.{StrSet, StrMap}
use legion_voice_mixer.Authority.{vis_row}
use legion_voice_mixer.Columns.{VisOp, Column}
use legion_voice_mixer.Deferred.{Store}

-- The settings that the plugin reads at its start.
pub record Settings : Type 0 where
  pub fail_closed : Bool
  pub stale_ms : ℕ

-- `slv_vis_entry`
pub record VisEntry : Type 0 where
  pub listener : CString
  pub excl : Column

-- `slv_vis_base`
pub record VisBase : Type 0 where
  pub listener : CString
  pub gen : ℤ

-- `slv_visbatch`
pub record VisBatch : Type 0 where
  pub op : VisOp
  pub room : ℤ
  pub entries : List VisEntry
  pub mute_entries : List VisEntry
  pub n_skipped : ℕ
  pub has_epoch : Bool
  pub room_epoch : ℕ
  pub policy_generation : ℕ
  pub base : List VisBase

-- A relayed message to one session: a presence entry ("j" or "l"), or a moderation mute ("m").
pub data Told : Type 0 where
  told_presence told_mute : ℕ → CString → Bool → Told

module _ (sets : StrSet) where
  -- `slv_vis_record`
  pub record VisRecord : Type 0 where
    pub epoch : ℕ
    pub listener_gen : ℕ
    pub confirmed_us : ℤ
    pub stale : Bool
    pub excl : sets.Keys
    pub mute : sets.Keys

  -- The fields of `janus_slvoice_session` that the feed reads and writes.
  pub record Member : Type 0 where
    pub user_id : ℕ
    pub display : Option CString
    pub excluded : sets.Keys
    pub mod_muted : sets.Keys

module _ (sets : StrSet) (maps : StrMap (VisRecord sets)) where
  -- The fields of `janus_slvoice_room` that the feed reads and writes. `participants` are in the order
  -- in which the table iterates.
  pub record Room : Type 0 where
    pub participants : List (Member sets)
    pub vis_epoch : ℕ
    pub vis_last_ts : ℤ
    pub vis_last_mode : VisOp
    pub vis_have_batch : Bool
    pub vis_joins_since_snapshot : ℕ
    pub vis_dropped_listener_entries : ℕ
    pub vis_last_batch_dropped_listeners : ℕ
    pub vis_deferred : Store
    pub vis_declared : Bool
    pub vis_auth_epoch : ℕ
    pub vis_policy_gen : ℕ
    pub vis_auth_last_us : ℤ
    pub vis_records : maps.Map
    pub vis_stale_epoch_rejects : ℕ
    pub vis_stale_generation_rejects : ℕ
    pub vis_records_full : ℕ

-- `janus_slvoice_vis_stale_us`
abbrev pub stale_us : Settings → ℤ
stale_us settings = pos (settings.stale_ms * 1000)

module _ (sets : StrSet) (maps : StrMap (VisRecord sets)) (settings : Settings) where
  -- `janus_slvoice_vis_enforced`
  unfoldable pub vis_enforced : Room sets maps → Bool
  vis_enforced room = settings.fail_closed && room.vis_declared

  abbrev pub record_row : Room sets maps → ℤ → Option (VisRecord sets) → ℕ
  record_row room now none =
      vis_row false 0 room.vis_auth_epoch (pos 0) false now (stale_us settings)
  record_row room now (some r) =
      vis_row true r.epoch room.vis_auth_epoch r.confirmed_us r.stale now (stale_us settings)

  -- `janus_slvoice_vis_row_locked`
  unfoldable pub vis_row_locked : Room sets maps → Option CString → ℤ → ℕ
  vis_row_locked room none now = record_row room now none
  vis_row_locked room (some display) now =
      record_row room now (maps.lookup room.vis_records display)

  -- `janus_slvoice_vis_ok_locked`
  unfoldable pub vis_ok : Room sets maps → Option CString → ℤ → Bool
  unfolding vis_row_locked
  vis_ok room display now = vis_row_locked room display now == 4

  -- `janus_slvoice_vis_pair_visible_locked`
  unfoldable pub pair_visible : Room sets maps → Option CString → CString → ℤ → Bool
  unfolding vis_ok
  pair_visible room listener source now = vis_ok room listener now && vis_ok room (some source) now
