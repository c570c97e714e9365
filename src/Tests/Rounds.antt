-- ===== src/Tests/Rounds.antt =====
-- A heartbeat that names two rooms, of which one is known.
use legion_voice_mixer.Prelude.{
  Bool, ◌||◌, length, arith, ◌⊎◌, inl, inr, ◌≡◌, refl, List, [], ◌∷◌, CString, codes, str_eq, map,
  if◌then◌else◌,
}
use legion_voice_mixer.Prelude.Int.{pos, ◌-ℤ◌}
use legion_voice_mixer.Hex.{parse_epoch, hex64, hex_digit, push_digit}
use legion_voice_mixer.Authority.{feed_live, stale_min_ms, epoch_decide, authority_stale}
use legion_voice_mixer.Visibility.Authority.{vis_adopt}
use legion_voice_mixer.Visibility.Heartbeat.{
  BeatError, BeatStatus, BeatReply, beat_ok, beat_unknown_room, is_too_long, parse_beat, beat_room,
  beat_live, heartbeat_listeners, beat_listeners, beat_listener, beat_record,
}
use legion_voice_mixer.Visibility.Rounds.{
  Strtoull, Rooms, room_by_id, at_room, room_number, beat_numbered, beat_rooms, handle_heartbeat,
}
use legion_voice_mixer.Visibility.Apart.{beaten, handle_heartbeat-room_beats}
use legion_voice_mixer.Tests.Tables.{list_sets}
use legion_voice_mixer.Tests.Documents.{Document, text, number, object, field_end, field, holding}
use legion_voice_mixer.Tests.Feed.{settings, maps}
use legion_voice_mixer.Tests.Beats.{listing, beating}

abbrev is_digit : CString → Bool
is_digit key = str_eq key (codes "5") || str_eq key (codes "6")

abbrev digits : Strtoull
digits = record {
  value = λ key. if str_eq key (codes "5") then 5 else if str_eq key (codes "6") then 6 else 0;
  consumed = λ key. if is_digit key then length key else 0;
  consumed_fits = λ key. ground arith;
}

abbrev message : Document
message = object (
    field (codes "room_epoch") (text (codes "0000000000000007")) (
      field (codes "interval_ms") (number (pos 100)) (
        field (codes "rooms")
          (object (
            field (codes "5") listing
              (field (codes "six") listing (field (codes "6") listing field_end))))
          field_end)))

abbrev rooms : Rooms (holding listing) list_sets maps settings digits
rooms = (5, beating) ∷ []

abbrev statuses : (List (CString × BeatReply) ⊎ BeatError) → List (CString × BeatStatus)
statuses (inl replies) = map (λ (r : CString × BeatReply). (r.0, r.1.status)) replies
statuses (inr e) = []

answers_two :
    statuses
      (handle_heartbeat (holding listing) list_sets maps settings digits message (pos 20) rooms).0
    ≡ (codes "5", beat_ok) ∷ (codes "6", beat_unknown_room) ∷ []
unfolding handle_heartbeat beat_rooms beat_numbered room_by_id room_number parse_beat parse_epoch
    hex64 hex_digit push_digit is_too_long stale_min_ms feed_live beat_room vis_adopt epoch_decide
    authority_stale beat_live heartbeat_listeners beat_listeners beat_listener beat_record ◌-ℤ◌
    str_eq
answers_two = refl

handle_heartbeat-room_beats_example :
    at_room 5
      (handle_heartbeat (holding listing) list_sets maps settings digits message (pos 20) rooms).1
    ≡ beaten
        (holding listing)
        list_sets
        maps
        settings
        digits
        (parse_beat (holding listing) list_sets maps settings message)
        message
        (pos 20)
        5
        (at_room 5 rooms)
handle_heartbeat-room_beats_example =
    handle_heartbeat-room_beats (holding listing) list_sets maps settings digits message (pos 20)
      rooms 5
