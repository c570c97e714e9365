-- ===== src/Visibility/Join.antt =====
-- A session that joins: `janus_slvoice_vis_rejoin_columns_locked`,
-- `janus_slvoice_room_replay_deferred_locked` and `janus_slvoice_join_commit_locked` of
-- src/janus_slvoice.c, and `slv_roster_excludes` of src/roster.h. The session is among the participants
-- already; sessions are told apart by their `user_id`, the key of the table. The roster is the ids of the
-- sessions that the joining client is told of. Logging is left out.
use legion_voice_mixer.Prelude.{
  ℕ, Bool, true, false, not, ◌&&◌, ◌||◌, List, [], ◌∷◌, Option, none, some, CString, ◌==◌,
  if◌then◌else◌, map,
}
use legion_voice_mixer.Prelude.Int.{ℤ}
use legion_voice_mixer.Glib.{StrSet, StrMap}
use legion_voice_mixer.Columns.{Column}
use legion_voice_mixer.Deferred.{Entry, get, replay_done}
use legion_voice_mixer.Visibility.{Settings, VisRecord, Member, Room, vis_enforced, vis_ok}
use legion_voice_mixer.Visibility.Channels.{for_each, set_mod_muted}

module _ (sets : StrSet) where
  open sets use {Keys, empty, contains, add, keys}

  -- Rows added to a set, each if it is not there.
  abbrev pub add_rows : Column → Keys → Keys
  add_rows src held = for_each (λ s set. if contains set s then set else add set s) src held

  abbrev pub mute_rows : Column → Keys → Keys
  mute_rows src held = for_each (λ s set. (set_mod_muted sets set s true).0) src held

  -- What the replay of a deferred record gives a session.
  abbrev pub with_deferred : Entry → Member sets → Member sets
  with_deferred d l = record l {
    excluded = add_rows d.excl l.excluded;
    mod_muted = mute_rows d.mute l.mod_muted;
  }

  -- What an authority's record gives a session, in place of what it had.
  abbrev pub with_record : VisRecord sets → Member sets → Member sets
  with_record r l = record l {
    excluded = for_each (λ s set. add set s) (keys r.excl) empty;
    mod_muted = mute_rows (keys r.mute) empty;
  }

  -- `slv_roster_excludes`
  unfoldable pub roster_excludes : Keys → Option CString → Bool
  roster_excludes excluded none = false
  roster_excludes excluded (some display) = contains excluded display

module _ (sets : StrSet) (maps : StrMap (VisRecord sets)) (settings : Settings) where
  -- `janus_slvoice_room_replay_deferred_locked`
  unfoldable pub replay_deferred : Room sets maps → Member sets → Room sets maps × Member sets
  unfolding get replay_done set_mod_muted
  replay_deferred room l = elim l.display [
    | none ↦ (room, l)
    | some display ↦ elim (get room.vis_deferred display) [
      | none ↦ (room, l)
      | some d ↦ (
        record room { vis_deferred = (replay_done room.vis_deferred display).1 },
        with_deferred sets d l,
      )
    ]
  ]

  -- The armed record of the current epoch for a session's display, under fail-closed.
  unfoldable pub armed_record : Room sets maps → Option CString → Option (VisRecord sets)
  unfolding vis_enforced
  armed_record room none = none
  armed_record room (some display) = elim (maps.lookup room.vis_records display) [
    | none ↦ none
    | some r ↦
        if vis_enforced sets maps settings room && r.epoch == room.vis_auth_epoch
        then some r
        else none
  ]

  abbrev pub forget_deferred : Room sets maps → Option CString → Room sets maps
  forget_deferred room none = room
  forget_deferred room (some display) = record room {
    vis_deferred = (replay_done room.vis_deferred display).1;
  }

  -- `janus_slvoice_vis_rejoin_columns_locked`, and the replay when it does nothing.
  unfoldable pub join_columns : Room sets maps → Member sets → Room sets maps × Member sets
  unfolding armed_record replay_deferred
  join_columns room l = elim (armed_record room l.display) [
    | some r ↦ (forget_deferred room l.display, with_record sets r l)
    | none ↦ replay_deferred room l
  ]

  -- Does the roster of `l` have a line for `p`?
  unfoldable pub listed : Room sets maps → ℤ → Member sets → Member sets → Bool
  unfolding roster_excludes vis_enforced vis_ok
  listed room now l p =
      not (p.user_id == l.user_id)
      && (not (roster_excludes sets l.excluded p.display)
          && (not (vis_enforced sets maps settings room)
              || (vis_ok sets maps settings room l.display now
                  && vis_ok sets maps settings room p.display now)))

  unfoldable pub roster : Room sets maps → ℤ → Member sets → List (Member sets) → List ℕ
  unfolding listed
  roster room now l [] = []
  roster room now l (p ∷ ps) =
      let rest = roster room now l ps in if listed room now l p then p.user_id ∷ rest else rest

  -- The state after a join, the joiner's `vis_ok_last`, and its roster.
  pub record Joined : Type 0 where
    pub room : Room sets maps
    pub member : Member sets
    pub vis_ok_last : Bool
    pub list : List ℕ

  -- `janus_slvoice_join_commit_locked`
  unfoldable pub join_commit : Room sets maps → Member sets → ℤ → Joined
  unfolding join_columns vis_ok roster
  join_commit room session now =
      let (after, l) = join_columns room session in
      record {
        room = record after { participants = map (seat l) after.participants };
        member = l;
        vis_ok_last = vis_ok sets maps settings after l.display now;
        list = roster after now l after.participants;
      }
    where
      seat : Member sets → Member sets → Member sets
      seat l p = if p.user_id == l.user_id then l else p
