-- ===== src/Tests/Joins.antt =====
-- Joins of a room of two places, with the capability and the MAC of `Capability`.
use legion_voice_mixer.Prelude.{
  ◌<◌, ◌≡◌, refl, true, false, List, [], ◌∷◌, none, some, codes, str_eq, length, arith,
}
use legion_voice_mixer.Prelude.Int.{pos}
use legion_voice_mixer.Joincap.Gate.{joincap_verify, verify_text}
use legion_voice_mixer.Rooms.{without, remove_participant}
use legion_voice_mixer.Rooms.Joining.{
  JoinRoom, JoinRequest, room_ref_by_id, check_capacity, is_cap_gated, to_int64, admit_to, admit,
  commit_membership, mark_destroyed, Desk, Event, asks, commits, leaves, destroys, ask, step, run,
}
use legion_voice_mixer.Rooms.Capacity.{IsSound, run-IsSound}
use legion_voice_mixer.Rooms.Entrance.{IsEntitled, admit-Admitted}
use legion_voice_mixer.Tests.Capability.{toy, key, parses_minted}
use legion_voice_mixer.Tests.Gate.{gate, text}

abbrev room : JoinRoom
room = record {
  live = record {
    room_id = 5;
    permanent = false;
    empty_since = pos 0;
    participants = 9 ∷ [];
    destroyed = false;
  };
  vis_declared = true;
  sim_created = false;
  vis_auth_epoch = 255;
  vis_policy_gen = 3;
}

abbrev request : JoinRequest
request = record {
  room = some 5;
  has_jsep = true;
  display = some (codes "agent");
  join_cap = some text;
  session_id = some (codes "session");
  negotiated = none;
}

abbrev desk : Desk
desk = record { room = room; gate = gate; negotiating = false }

-- A join of the last place, and one more that is turned away.
abbrev events : List Event
events =
    asks (pos 130) request ∷ commits 4 ∷ asks (pos 131) request ∷ leaves 9 (pos 1) ∷ commits 6 ∷ []

run_fills : (run toy none false 2 events desk).room.live.participants ≡ 4 ∷ []
unfolding run step ask admit admit_to room_ref_by_id check_capacity commit_membership
    remove_participant without joincap_verify verify_text is_cap_gated to_int64
run_fills = refl

-- A room that is destroyed while a join negotiates gains nobody.
run_destroyed :
    (run toy none false 2
      (asks (pos 130) request ∷ destroys ∷ commits 4 ∷ [])
      desk).room.live.participants
    ≡ []
unfolding run step ask admit admit_to room_ref_by_id check_capacity commit_membership mark_destroyed
    joincap_verify verify_text is_cap_gated to_int64
run_destroyed = refl

run-IsSound_example : IsSound toy none false 2 (run toy none false 2 events desk)
run-IsSound_example = run-IsSound toy none false 2 events desk (omega arith, λ d. ground (arith, d))

passes : (admit toy (some key) true 2 (pos 130) false request (room ∷ []) gate).0 ≡ none
unfolding admit admit_to room_ref_by_id check_capacity joincap_verify verify_text str_eq
    is_cap_gated to_int64
passes = rw parses_minted refl

admit-Admitted_example :
    (false ≡ false)
    × (room.live.destroyed ≡ false)
    × (length room.live.participants < 2)
    × IsEntitled toy key 2 request 5 255 (pos 130) gate
admit-Admitted_example =
    admit-Admitted toy key 2 (pos 130) false request 5 (room ∷ []) room gate refl
      (unfold room_ref_by_id in refl) refl passes
