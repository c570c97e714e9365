-- ===== src/Rooms/Capacity.antt =====
-- The bound that joins keep, whatever other threads do to a room between the gates of a join and its
-- membership.
use legion_voice_mixer.Prelude.{
  ℕ, ◌+◌, ◌≤◌, ◌≡◌, refl, Bool, true, false, List, [], ◌∷◌, Option, none, some, length, arith,
  if◌then◌else◌, ◌==◌,
}
use legion_voice_mixer.Prelude.Int.{ℤ}
use legion_voice_mixer.Joincap.{Verdict}
use legion_voice_mixer.Joincap.Parse.{Crypto}
use legion_voice_mixer.Joincap.Gate.{Gate, joincap_verify}
use legion_voice_mixer.Rooms.{LiveRoom, without, remove_participant, is_none}
use legion_voice_mixer.Rooms.Joining.{
  JoinRoom, JoinRequest, room_ref_by_id, check_capacity, check_verdict, admit_to, admit, to_int64,
  is_cap_gated, commit_membership, mark_destroyed, Desk, Event, asks, commits, leaves, destroys,
  ask, step, run,
}

abbrev count_of : Bool → ℕ
count_of true = 1
count_of false = 0

-- The join that is negotiating has its place.
abbrev pub Fits : ℕ → LiveRoom → Bool → Type 0
Fits room_size r negotiating = length r.participants + count_of negotiating ≤ room_size

-- Nobody is in a destroyed room.
abbrev pub IsVacated : LiveRoom → Type 0
IsVacated r = r.destroyed ≡ true → is_none r.participants ≡ true

length-without : (id : ℕ) (us : List ℕ) → length (without id us) ≤ length us
unfolding without
length-without id [] = omega arith
length-without id (u ∷ us) = ground (arith, length-without id us)

is_none-without : (id : ℕ) (us : List ℕ) → is_none us ≡ true → is_none (without id us) ≡ true
unfolding without
is_none-without id [] h = refl
is_none-without id (u ∷ us) h = ground (arith, h)

remove_participant-Fits :
    (room_size id : ℕ) (now : ℤ) (r : LiveRoom) (n : Bool)
    → Fits room_size r n
    → IsVacated r
    → Fits room_size (remove_participant id now r) n × IsVacated (remove_participant id now r)
unfolding remove_participant
remove_participant-Fits room_size id now r n f v = (
  ground (arith, f, length-without id r.participants),
  λ d. ground (arith, d, v, is_none-without id r.participants),
)

commit_membership-Fits :
    (room_size random : ℕ) (r : LiveRoom)
    → Fits room_size r true
    → IsVacated r
    → Fits room_size (commit_membership random r).1 false × IsVacated (commit_membership random r).1
unfolding commit_membership
commit_membership-Fits room_size random r f v = (
  ground (arith, f, length-without (if random == 0 then 1 else random) r.participants),
  λ d. ground (arith, d, v),
)

mark_destroyed-Fits :
    (room_size : ℕ) (r : LiveRoom) (n : Bool)
    → Fits room_size r n
    → Fits room_size (mark_destroyed r) n × IsVacated (mark_destroyed r)
unfolding mark_destroyed
mark_destroyed-Fits room_size r n f = (omega (arith, f), λ d. refl)

module _ (crypto : Crypto) (key : Option (List ℕ)) (required : Bool) (room_size : ℕ) where
  check_verdict-Fits :
      (q : JoinRequest) (r : JoinRoom) (x : Verdict × Gate)
      → (check_verdict crypto key required room_size q r x).0 ≡ none
      → Fits room_size r.live true
  unfolding check_capacity
  check_verdict-Fits q r x h = ground (arith, h)

  admit_to-Fits :
      (now_s : ℤ) (id : ℕ) (q : JoinRequest) (r : JoinRoom) (g : Gate)
      → (admit_to crypto key required room_size now_s id q r g).0 ≡ none
      → Fits room_size r.live true
  unfolding admit_to
  admit_to-Fits now_s id q r g h = ground (
    arith,
    h,
    check_verdict-Fits q r (
        joincap_verify crypto key q.join_cap q.display q.session_id (to_int64 id) r.vis_auth_epoch
          r.vis_policy_gen (is_cap_gated r) now_s g),
  )

  admit-Fits :
      (now_s : ℤ) (q : JoinRequest) (r : JoinRoom) (g : Gate)
      → (admit crypto key required room_size now_s false q (r ∷ []) g).0 ≡ none
      → Fits room_size r.live true
  unfolding admit room_ref_by_id
  admit-Fits now_s q r g h = go q.room refl
    where
      go : (o : Option ℕ) → q.room ≡ o → Fits room_size r.live true
      go none e = ground (arith, h, e)
      go (some id) e = ground (arith, h, e, admit_to-Fits now_s id q r g)

  -- The room, its gate and its pending join, bound together.
  abbrev pub IsSound : Desk → Type 0
  IsSound d = Fits room_size d.room.live d.negotiating × IsVacated d.room.live

  ask-IsSound :
      (now_s : ℤ) (q : JoinRequest) (d : Desk)
      → d.negotiating ≡ false
      → IsSound d
      → IsSound (ask crypto key required room_size now_s q d)
  unfolding ask
  ask-IsSound now_s q d idle h = ground (arith, idle, h, admit-Fits now_s q d.room d.gate)

  step-IsSound :
      (e : Event) (d : Desk) → IsSound d → IsSound (step crypto key required room_size e d)
  unfolding step
  step-IsSound (asks now_s q) d h = ground (arith, h, ask-IsSound now_s q d)
  step-IsSound (commits random) d h =
      ground (arith, h, commit_membership-Fits room_size random d.room.live)
  step-IsSound (leaves user_id now) d h =
      remove_participant-Fits room_size user_id now d.room.live d.negotiating h.0 h.1
  step-IsSound destroys d h = mark_destroyed-Fits room_size d.room.live d.negotiating h.0

  -- Whatever sequence of requests to join, memberships, leaves and destructions a room goes through, it
  -- never has more participants than its size allows, the join that is negotiating counted in, and nobody
  -- is in it once it is destroyed, where both hold at the start.
  pub run-IsSound :
      (es : List Event) (d : Desk) → IsSound d → IsSound (run crypto key required room_size es d)
  unfolding run
  run-IsSound [] d h = h
  run-IsSound (e ∷ es) d h =
      run-IsSound es (step crypto key required room_size e d) (step-IsSound e d h)
