-- ===== src/Visibility/Handle.antt =====
-- A parsed batch at its room: the check, and then both channels unless it is refused. This is the arm of
-- `janus_slvoice_handle_admin_message` of src/janus_slvoice.c between the room's lock and its unlock;
-- the parse, the lookup of the room and the text of the reply are left out.
use legion_voice_mixer.Prelude.{ℕ, Bool, true, false, List, [], ◌∷◌, ◌++◌, CString, if◌then◌else◌}
use legion_voice_mixer.Prelude.Int.{ℤ}
use legion_voice_mixer.Glib.{StrSet, StrMap}
use legion_voice_mixer.Columns.{col_has}
use legion_voice_mixer.Visibility.{Settings, VisEntry, VisBatch, Told, VisRecord, Room}
use legion_voice_mixer.Visibility.Batch.{Progress, apply_visbatch, apply_mutebatch}
use legion_voice_mixer.Visibility.Authority.{Outcome, Checking, batch_authority}

abbrev pub has_entries : List VisEntry → Bool
has_entries [] = false
has_entries (e ∷ es) = true

module _ (sets : StrSet) (maps : StrMap (VisRecord sets)) (settings : Settings) where
  pub record Handled : Type 0 where
    pub room : Room sets maps
    pub out : Outcome
    pub excl_deferred : ℕ
    pub mute_deferred : ℕ
    pub told : List Told

  abbrev pub idle : Room sets maps → Progress sets maps settings
  idle room = record { room = room; count = 0; told = [] }

  -- Each channel is applied when it is not empty.
  unfoldable pub excl_stage :
      (CString → Bool)
      → VisBatch
      → (CString → Bool)
      → ℤ
      → ℤ
      → Room sets maps
      → Progress sets maps settings
  unfolding apply_visbatch
  excl_stage alloc vb skip vis_now end_us room =
      if has_entries vb.entries
      then apply_visbatch sets maps settings alloc vb skip vis_now end_us room
      else idle room

  unfoldable pub mute_stage :
      (CString → Bool)
      → VisBatch
      → (CString → Bool)
      → ℤ
      → Room sets maps
      → Progress sets maps settings
  unfolding apply_mutebatch
  mute_stage alloc vb skip vis_now room =
      if has_entries vb.mute_entries
      then apply_mutebatch sets maps settings alloc vb skip vis_now room
      else idle room

  -- The exclusion channel, and then the mute channel.
  unfoldable pub apply_channels :
      (CString → Bool) → VisBatch → ℤ → ℤ → ℤ → Checking sets maps settings → Handled
  unfolding excl_stage mute_stage
  apply_channels alloc vb vis_now end_us mute_now c =
      let skip = col_has c.out.skip in
      let excl = excl_stage alloc vb skip vis_now end_us c.room in
      let mute = mute_stage alloc vb skip mute_now excl.room in
      record {
        room = mute.room;
        out = c.out;
        excl_deferred = excl.count;
        mute_deferred = mute.count;
        told = excl.told ++ mute.told;
      }

  -- The batch's arm of `janus_slvoice_handle_admin_message`
  unfoldable pub handle_batch :
      (CString → Bool) → VisBatch → ℤ → ℤ → ℤ → ℤ → Room sets maps → Handled
  unfolding batch_authority apply_channels
  handle_batch alloc vb now vis_now end_us mute_now room =
      let c = batch_authority sets maps settings vb now room in
      if c.out.refused
      then record { room = c.room; out = c.out; excl_deferred = 0; mute_deferred = 0; told = [] }
      else apply_channels alloc vb vis_now end_us mute_now c
