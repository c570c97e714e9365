-- ===== src/Rooms.antt =====
-- The life of rooms in src/janus_slvoice.c: leaving one, the grace of an empty one, and its end. The
-- system has its rooms by their ids, the keys of `rooms`, and its sessions; a room's participants are the
-- ids of its sessions. What a session resets on leaving is `clean`; the threads, the references to a room
-- and the relayed leave are left out.
pub mod Laws
pub mod Joining
pub mod Capacity
pub mod Entrance
use legion_voice_mixer.Prelude.{
  ℕ, ◌+◌, ◌*◌, Bool, true, false, not, ◌&&◌, ◌||◌, List, [], ◌∷◌, Option, none, some, ◌==◌, map,
  if◌then◌else◌,
}
use legion_voice_mixer.Prelude.Int.{ℤ, pos, ◌-ℤ◌, leb_ℤ}
use legion_voice_mixer.Authority.{is_zero_ℤ}

-- The fields of `janus_slvoice_room` that its life turns on.
pub record LiveRoom : Type 0 where
  pub room_id : ℕ
  pub permanent : Bool
  pub empty_since : ℤ
  pub participants : List ℕ
  pub destroyed : Bool

-- The fields of `janus_slvoice_session` that say where it is, and whether its room-scoped state is reset.
pub record Seat : Type 0 where
  pub user_id : ℕ
  pub room : Option ℕ
  pub clean : Bool

pub record System : Type 0 where
  pub rooms : List LiveRoom
  pub sessions : List Seat

abbrev pub is_none {ℓ} : {A : Type ℓ} → List A → Bool
is_none [] = true
is_none (x ∷ xs) = false

abbrev pub is_in : ℕ → Option ℕ → Bool
is_in id none = false
is_in id (some r) = r == id

-- `janus_slvoice_room_rearm_grace_locked`
unfoldable pub rearm_grace : ℤ → LiveRoom → LiveRoom
rearm_grace now r =
    if not r.permanent && (not (is_zero_ℤ r.empty_since) && is_none r.participants)
    then record r { empty_since = now }
    else r

unfoldable pub without : ℕ → List ℕ → List ℕ
without id [] = []
without id (u ∷ us) = let rest = without id us in if u == id then rest else u ∷ rest

-- A participant taken out of its room: the last one of a room that is not permanent starts the grace clock.
unfoldable pub remove_participant : ℕ → ℤ → LiveRoom → LiveRoom
unfolding without
remove_participant user_id now r =
    let rest = without user_id r.participants in
    if not r.permanent && is_none rest
    then record r { participants = rest; empty_since = now }
    else record r { participants = rest }

-- `janus_slvoice_reset_room_state_locked`, once the session has no room.
abbrev pub unseat : Seat → Seat
unseat s = record s { room = none; clean = true }

-- `janus_slvoice_leave_room`, of the session with that id.
unfoldable pub leave_room : ℕ → ℤ → System → System
unfolding remove_participant
leave_room user_id now sys = record {
  rooms =
      map (λ r. if seated r.room_id sys.sessions then remove_participant user_id now r else r)
        sys.rooms;
  sessions = map (λ s. if s.user_id == user_id then unseat_one s else s) sys.sessions;
}
  where
    seated : ℕ → List Seat → Bool
    seated room_id [] = false
    seated room_id (s ∷ ss) = (s.user_id == user_id && is_in room_id s.room) || seated room_id ss

    unseat_one : Seat → Seat
    unseat_one s = elim s.room [ none ↦ s | some r ↦ unseat s ]

-- Is the room's time up? `grace_us` is the configured grace in microseconds.
unfoldable pub is_expired : ℤ → ℤ → LiveRoom → Bool
unfolding ◌-ℤ◌
is_expired grace_us now r =
    not r.permanent
    && (not r.destroyed
        && (not (is_zero_ℤ r.empty_since)
            && (is_none r.participants && leb_ℤ grace_us (now -ℤ r.empty_since))))

abbrev pub has_id : ℕ → List ℕ → Bool
has_id id [] = false
has_id id (u ∷ us) = u == id || has_id id us

-- The participants that still point at the room are taken out of it.
unfoldable pub evict : LiveRoom → List Seat → List Seat
evict r [] = []
evict r (s ∷ ss) =
    (if has_id s.user_id r.participants && is_in r.room_id s.room then unseat s else s) ∷ evict r ss

unfoldable pub drop_room : ℕ → List LiveRoom → List LiveRoom
drop_room room_id [] = []
drop_room room_id (r ∷ rs) =
    let rest = drop_room room_id rs in if r.room_id == room_id then rest else r ∷ rest

-- `janus_slvoice_room_teardown_locked`
unfoldable pub teardown : LiveRoom → System → System
unfolding evict drop_room
teardown r sys = record { rooms = drop_room r.room_id sys.rooms; sessions = evict r sys.sessions }

-- The rooms whose time is up, each put before those found earlier.
unfoldable pub expired : ℤ → ℤ → List LiveRoom → List LiveRoom → List LiveRoom
unfolding is_expired
expired grace_us now [] found = found
expired grace_us now (r ∷ rs) found =
    expired grace_us now rs (if is_expired grace_us now r then r ∷ found else found)

unfoldable pub teardown_all : List LiveRoom → System → System
unfolding teardown
teardown_all [] sys = sys
teardown_all (r ∷ rs) sys = teardown_all rs (teardown r sys)

-- `janus_slvoice_sweep_empty_rooms_locked`; a grace of zero seconds turns the sweep off.
unfoldable pub sweep_empty_rooms : ℕ → ℤ → System → System
unfolding teardown_all expired
sweep_empty_rooms grace_s now sys =
    if grace_s == 0
    then sys
    else teardown_all (expired (pos (grace_s * 1000000)) now sys.rooms []) sys
