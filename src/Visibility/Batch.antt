-- ===== src/Visibility/Batch.antt =====
-- A parsed batch applied to its room: `janus_slvoice_apply_visbatch_locked` and
-- `janus_slvoice_apply_mutebatch_locked` of src/janus_slvoice.c. The relayed messages are the second
-- component of a result; what the log lines read is left out. `alloc` says, for each listener, whether
-- the store's `malloc` succeeds.
use legion_voice_mixer.Prelude.{
  ℕ, Bool, true, false, not, ◌||◌, List, [], ◌∷◌, ◌++◌, CString, if◌then◌else◌,
}
use legion_voice_mixer.Prelude.Int.{ℤ}
use legion_voice_mixer.Swap.{any}
use legion_voice_mixer.Glib.{StrSet, StrMap}
use legion_voice_mixer.Columns.{VisOp, op_add, op_remove, op_replace}
use legion_voice_mixer.Deferred.{next, put}
use legion_voice_mixer.Joincap.{is_string}
use legion_voice_mixer.Visibility.{
  Settings, VisEntry, VisBatch, Told, told_presence, told_mute, VisRecord, Member, Room,
  vis_enforced, pair_visible,
}
use legion_voice_mixer.Visibility.Channels.{Transition, update_excluded, update_muted}

abbrev pub is_replace : VisOp → Bool
is_replace op_replace = true
is_replace op_add = false
is_replace op_remove = false

module _ (sets : StrSet) where
  -- A table of displays: is some participant's display `s`?
  abbrev pub by_display : List (Member sets) → CString → Bool
  by_display participants s = any (λ p. is_string p.display s) participants

  -- The scan of the participants: every session whose display is the listener is changed.
  unfoldable pub scan :
      (Member sets → Member sets × List Told)
      → CString
      → List (Member sets)
      → List (Member sets) × List Told
  scan change listener [] = ([], [])
  scan change listener (l ∷ ls) =
      let (rest, later) = scan change listener ls in
      if is_string l.display listener
      then ((change l).0 ∷ rest, (change l).1 ++ later)
      else (l ∷ rest, later)

module _ (sets : StrSet) (maps : StrMap (VisRecord sets)) (settings : Settings) where
  -- The transitions that are relayed to a session: all of them, or under fail-closed those that the pair
  -- rule lets it see.
  unfoldable pub relayed :
      (ℕ → CString → Bool → Told) → Room sets maps → ℤ → Member sets → List Transition → List Told
  unfolding vis_enforced pair_visible
  relayed tell room vis_now l [] = []
  relayed tell room vis_now l (t ∷ ts) =
      let rest = relayed tell room vis_now l ts in
      if not (vis_enforced sets maps settings room)
        || pair_visible sets maps settings room l.display t.who vis_now
      then tell l.user_id t.who t.on ∷ rest
      else rest

  -- What an entry does to one session of its listener, and what the session is told.
  abbrev pub exclude_in :
      (CString → Bool)
      → Room sets maps
      → ℤ
      → VisOp
      → VisEntry
      → Member sets
      → Member sets × List Told
  exclude_in present room vis_now op e l =
      let w = update_excluded sets present op e.excl l.excluded in
      (record l { excluded = w.held }, relayed told_presence room vis_now l w.trans)

  abbrev pub mute_in : Room sets maps → ℤ → VisOp → VisEntry → Member sets → Member sets × List Told
  mute_in room vis_now op e l =
      let w = update_muted sets op e.excl l.mod_muted in
      (record l { mod_muted = w.held }, relayed told_mute room vis_now l w.trans)

  -- Where a loop over entries stands: the room, the entries deferred so far, and what was relayed.
  pub record Progress : Type 0 where
    pub room : Room sets maps
    pub count : ℕ
    pub told : List Told

  abbrev pub scanned : Progress → List (Member sets) × List Told → Progress
  scanned p (changed, told) = record p {
    room = record p.room { participants = changed };
    told = p.told ++ told;
  }

  -- One entry of the exclusion channel. An entry whose listener has no session here is counted, and
  -- deferred.
  unfoldable pub excl_step :
      (CString → Bool)
      → (CString → Bool)
      → (CString → Bool)
      → ℤ
      → VisOp
      → VisEntry
      → Progress
      → Progress
  unfolding scan relayed update_excluded put
  excl_step alloc skip present vis_now op e p =
      if skip e.listener
      then p
      else if by_display sets p.room.participants e.listener
      then scanned p
          (scan sets (exclude_in present p.room vis_now op e) e.listener p.room.participants)
      else record p {
        room = record p.room {
          vis_dropped_listener_entries = next p.room.vis_dropped_listener_entries;
          vis_deferred = put (alloc e.listener) p.room.vis_deferred e.listener op e.excl false;
        };
        count = next p.count;
      }

  -- One entry of the moderation-mute channel.
  unfoldable pub mute_step :
      (CString → Bool) → (CString → Bool) → ℤ → VisOp → VisEntry → Progress → Progress
  unfolding scan relayed update_muted put
  mute_step alloc skip vis_now op e p =
      if skip e.listener
      then p
      else if by_display sets p.room.participants e.listener
      then scanned p (scan sets (mute_in p.room vis_now op e) e.listener p.room.participants)
      else record p {
        room = record p.room {
          vis_deferred = put (alloc e.listener) p.room.vis_deferred e.listener op e.excl true;
        };
        count = next p.count;
      }

  unfoldable pub for_entries :
      (VisEntry → Progress → Progress) → List VisEntry → Progress → Progress
  for_entries step [] p = p
  for_entries step (e ∷ es) p = for_entries step es (step e p)

  abbrev pub start : Room sets maps → Progress
  start room = record { room = room; count = 0; told = [] }

  -- What is recorded of a batch once its entries are applied.
  abbrev pub recorded : VisBatch → ℤ → Progress → Progress
  recorded vb end_us p = record p {
    room = record p.room {
      vis_epoch = next p.room.vis_epoch;
      vis_last_ts = end_us;
      vis_last_mode = vb.op;
      vis_have_batch = true;
      vis_last_batch_dropped_listeners = p.count;
      vis_joins_since_snapshot = if is_replace vb.op then 0 else p.room.vis_joins_since_snapshot;
    };
  }

  -- `janus_slvoice_apply_visbatch_locked`
  unfoldable pub apply_visbatch :
      (CString → Bool) → VisBatch → (CString → Bool) → ℤ → ℤ → Room sets maps → Progress
  unfolding excl_step for_entries
  apply_visbatch alloc vb skip vis_now end_us room = recorded vb end_us (
      for_entries (excl_step alloc skip (by_display sets room.participants) vis_now vb.op)
        vb.entries (start room))

  -- `janus_slvoice_apply_mutebatch_locked`
  unfoldable pub apply_mutebatch :
      (CString → Bool) → VisBatch → (CString → Bool) → ℤ → Room sets maps → Progress
  unfolding mute_step for_entries
  apply_mutebatch alloc vb skip vis_now room =
      for_entries (mute_step alloc skip vis_now vb.op) vb.mute_entries (start room)
