-- ===== src/Tests/Rooms.antt =====
-- The sweep of empty rooms at work.
use legion_voice_mixer.Prelude.{◌≡◌, refl, true, false, [], ◌∷◌, some}
use legion_voice_mixer.Prelude.Int.{pos, ◌-ℤ◌}
use legion_voice_mixer.Rooms.{System, sweep_empty_rooms}
use legion_voice_mixer.Rooms.Laws.{has_room, sweep_empty_rooms-occupied}

-- Room 1 is occupied, and room 2 has been empty for a minute.
abbrev system : System
system = record {
  rooms =
      record {
        room_id = 1;
        permanent = false;
        empty_since = pos 0;
        participants = 7 ∷ [];
        destroyed = false;
      }
      ∷ record {
        room_id = 2;
        permanent = false;
        empty_since = pos 1000000;
        participants = [];
        destroyed = false;
      }
      ∷ [];
  sessions = record { user_id = 7; room = some 1; clean = false } ∷ [];
}

destroys_second :
    (sweep_empty_rooms 60 (pos 61000000) system).rooms
    ≡ record {
      room_id = 1;
      permanent = false;
      empty_since = pos 0;
      participants = 7 ∷ [];
      destroyed = false;
    }
      ∷ []
unfolding sweep_empty_rooms ◌-ℤ◌
destroys_second = refl

sweep_empty_rooms-occupied_example :
    (has_room 1 (sweep_empty_rooms 60 (pos 61000000) system).rooms ≡ true)
    × ((sweep_empty_rooms 60 (pos 61000000) system).sessions ≡ system.sessions)
sweep_empty_rooms-occupied_example =
    sweep_empty_rooms-occupied 60 (pos 61000000) system 1 (refl, (refl, tt)) refl
