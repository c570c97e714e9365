-- ===== src/Rooms/Joining.antt =====
-- The arm "join" of `janus_slvoice_handler` of src/janus_slvoice.c: its gates in their order up to the
-- negotiation, and the membership after it. The handler thread takes one request at a time, while other
-- threads make sessions leave and destroy the room, so a join is two steps of a `Desk`. Whether the
-- negotiation succeeds is an argument, a code where it does not; the random id is one too. The JSEP, the
-- fields of the session, its media and the answer are left out; the columns and the roster of the joiner
-- are `Visibility.Join`'s.
use legion_voice_mixer.Prelude.{
  ℕ, Bool, true, false, not, ◌||◌, List, [], ◌∷◌, Option, none, some, ◌==◌, CString, length, leb,
  ltb, ◌^◌, ◌-◌, if◌then◌else◌,
}
use legion_voice_mixer.Prelude.Int.{ℤ, pos, negsuc}
use legion_voice_mixer.Joincap.{Verdict}
use legion_voice_mixer.Joincap.Parse.{Crypto}
use legion_voice_mixer.Joincap.Gate.{Gate, joincap_verify, is_turned_down}
use legion_voice_mixer.Rooms.{LiveRoom, without, remove_participant}

-- Why a join is answered with an error.
pub data JoinError : Type 0 where
  missing_element : JoinError
  already_joined : JoinError
  no_such_room : JoinError
  no_offer : JoinError
  turned_down : Verdict → JoinError
  room_full : JoinError
  not_negotiated : ℕ → JoinError

-- The fields of a room that its joins turn on.
pub record JoinRoom : Type 0 where
  pub live : LiveRoom
  pub vis_declared : Bool
  pub sim_created : Bool
  pub vis_auth_epoch : ℕ
  pub vis_policy_gen : ℕ

-- What a join asks; `room` is `none` where it is no integer.
pub record JoinRequest : Type 0 where
  pub room : Option ℕ
  pub has_jsep : Bool
  pub display : Option CString
  pub join_cap : Option CString
  pub session_id : Option CString
  -- What the negotiation comes to: `none`, or the code of its error.
  pub negotiated : Option ℕ

-- `janus_slvoice_room_ref_by_id`
unfoldable pub room_ref_by_id : ℕ → List JoinRoom → Option JoinRoom
room_ref_by_id id [] = none
room_ref_by_id id (r ∷ rs) =
    let rest = room_ref_by_id id rs in
    if r.live.room_id == id then (if r.live.destroyed then none else some r) else rest

-- The capacity gate, and the negotiation after it.
unfoldable pub check_capacity : ℕ → JoinRequest → LiveRoom → Option JoinError
check_capacity room_size q r =
    if leb room_size (length r.participants)
    then some room_full
    else elim q.negotiated [ none ↦ none | some code ↦ some (not_negotiated code) ]

-- `(int64_t)` of a `guint64`
unfoldable pub to_int64 : ℕ → ℤ
to_int64 n = if ltb n (2 ^ 63) then pos n else negsuc (2 ^ 64 - 1 - n)

unfoldable pub is_cap_gated : JoinRoom → Bool
is_cap_gated r = r.vis_declared || r.sim_created

module _ (crypto : Crypto) (key : Option (List ℕ)) (required : Bool) (room_size : ℕ) where
  -- The error that turns the join down at its verdict, or at the gates after it.
  abbrev pub check_verdict : JoinRequest → JoinRoom → Verdict × Gate → Option JoinError × Gate
  check_verdict q r (v, g) =
      if is_turned_down required (is_cap_gated r) v
      then (some (turned_down v), g)
      else (check_capacity room_size q r.live, g)

  -- The gates of a join whose room is found.
  unfoldable pub admit_to : ℤ → ℕ → JoinRequest → JoinRoom → Gate → Option JoinError × Gate
  unfolding joincap_verify check_capacity is_cap_gated to_int64
  admit_to now_s id q r g =
      if not q.has_jsep
      then (some no_offer, g)
      else check_verdict q r (
          joincap_verify crypto key q.join_cap q.display q.session_id (to_int64 id) r.vis_auth_epoch
            r.vis_policy_gen (is_cap_gated r) now_s g)

  -- All the gates: the room that admits the session, or why none does.
  unfoldable pub admit : ℤ → Bool → JoinRequest → List JoinRoom → Gate → Option JoinError × Gate
  unfolding admit_to room_ref_by_id
  admit now_s already q rooms g = elim q.room [
    | none ↦ (some missing_element, g)
    | some id ↦ if already then (some already_joined, g) else elim (room_ref_by_id id rooms) [
      | none ↦ (some no_such_room, g)
      | some r ↦ admit_to now_s id q r g
    ]
  ]

-- The membership, once negotiated: a room that was destroyed meanwhile answers as one that never was.
unfoldable pub commit_membership : ℕ → LiveRoom → Option JoinError × LiveRoom
unfolding without
commit_membership random r =
    let user_id = if random == 0 then 1 else random in
    if r.destroyed then (some no_such_room, r) else (
      none,
      record r { empty_since = pos 0; participants = user_id ∷ without user_id r.participants },
    )

-- What the teardown does to the room itself.
unfoldable pub mark_destroyed : LiveRoom → LiveRoom
mark_destroyed r = record r { destroyed = true; participants = [] }

-- A room, the gate of capabilities, and whether the handler is negotiating a join of that room.
pub record Desk : Type 0 where
  pub room : JoinRoom
  pub gate : Gate
  pub negotiating : Bool

-- What happens to a room, in any order.
pub data Event : Type 0 where
  asks : ℤ → JoinRequest → Event
  commits : ℕ → Event
  leaves : ℕ → ℤ → Event
  destroys : Event

abbrev pub put_live : LiveRoom → JoinRoom → JoinRoom
put_live l r = record r { live = l }

module _ (crypto : Crypto) (key : Option (List ℕ)) (required : Bool) (room_size : ℕ) where
  -- A request that names another room, or a destroyed one, does not reach this one.
  unfoldable pub ask : ℤ → JoinRequest → Desk → Desk
  unfolding admit
  ask now_s q d =
      let (e, g) = admit crypto key required room_size now_s false q (d.room ∷ []) d.gate in
      elim e [ none ↦ record d { gate = g; negotiating = true } | some _ ↦ record d { gate = g } ]

  unfoldable pub step : Event → Desk → Desk
  unfolding ask commit_membership remove_participant mark_destroyed
  step (asks now_s q) d = if d.negotiating then d else ask now_s q d
  step (commits random) d =
      if d.negotiating
      then record d {
        room = put_live (commit_membership random d.room.live).1 d.room;
        negotiating = false;
      }
      else d
  step (leaves user_id now) d = record d {
    room = put_live (remove_participant user_id now d.room.live) d.room;
  }
  step destroys d = record d { room = put_live (mark_destroyed d.room.live) d.room }

  unfoldable pub run : List Event → Desk → Desk
  unfolding step
  run [] d = d
  run (e ∷ es) d = run es (step e d)
