-- ===== src/Tests/Beats.antt =====
-- Heartbeats at a room, and the sender's pass over its sessions.
use legion_voice_mixer.Prelude.{
  ◌≡◌, ◌≢◌, refl, true, false, List, [], ◌∷◌, none, some, map, if◌then◌else◌, str_eq,
}
use legion_voice_mixer.Prelude.Int.{pos, ◌-ℤ◌}
use legion_voice_mixer.Authority.{vis_row, epoch_decide, authority_stale}
use legion_voice_mixer.Columns.{col_has}
use legion_voice_mixer.Visibility.{told_presence, VisRecord, vis_ok}
use legion_voice_mixer.Visibility.Authority.{vis_adopt}
use legion_voice_mixer.Visibility.Heartbeat.{
  Beat, beat_stale_epoch, BeatRoom, heartbeat_listeners, listeners_of, beat_room,
}
use legion_voice_mixer.Visibility.Beats.{
  is_listed, own_beats, beats_after, IsNoMore, heartbeat_listeners-own_beats, beat_room-IsNoMore,
  beat_room-stopped,
}
use legion_voice_mixer.Visibility.Sender.{Watched, vis_transitions, standing}
use legion_voice_mixer.Visibility.Reports.{vis_transitions_settled}
use legion_voice_mixer.Tests.Tables.{list_sets}
use legion_voice_mixer.Tests.Documents.{Document, number, object, field_end, field, holding}
use legion_voice_mixer.Tests.Feed.{alice, bob, settings, maps, room, member}

abbrev armed : VisRecord list_sets
armed = record {
  epoch = 7;
  listener_gen = 2;
  confirmed_us = pos 10;
  stale = false;
  excl = [];
  mute = [];
}

abbrev records : maps.Map
records = (alice, armed) ∷ (bob, armed) ∷ []

abbrev pub listing : Document
listing = object (field alice (number (pos 2)) field_end)

heartbeat_listeners-own_beats_example :
    maps.lookup
      (heartbeat_listeners
        (holding listing)
        list_sets
        maps
        7
        (pos 20)
        (some listing)
        records).records
      alice
    ≡ (if is_listed
          (holding listing)
          list_sets
          maps
          alice
          (listeners_of (holding listing) list_sets maps (some listing))
        then own_beats
            (holding listing)
            list_sets
            maps
            7
            (pos 20)
            alice
            (listeners_of (holding listing) list_sets maps (some listing))
            (maps.lookup records alice)
        else none)
heartbeat_listeners-own_beats_example =
    heartbeat_listeners-own_beats (holding listing) list_sets maps 7 (pos 20) (some listing) records
      alice

abbrev pub beating : BeatRoom (holding listing) list_sets maps
beating = record {
  room = record room { vis_records = records };
  destroyed = false;
  vis_heartbeats = 0;
  vis_heartbeats_outdated = 0;
  vis_heartbeats_feed_stale = 0;
}

abbrev stop : Beat
stop = record { epoch = 7; feed_stale = false; stopping = true }

abbrev starved : Beat
starved = record { epoch = 7; feed_stale = true; stopping = false }

abbrev after_stop : BeatRoom (holding listing) list_sets maps
after_stop = (beat_room (holding listing) list_sets maps settings stop none (pos 20) beating).1

beat_room-IsNoMore_example :
    IsNoMore
      (holding listing)
      list_sets
      maps
      (maps.lookup records bob)
      (maps.lookup after_stop.room.vis_records bob)
beat_room-IsNoMore_example =
    beat_room-IsNoMore (holding listing) list_sets maps settings stop none (pos 20) beating bob

-- The same authority goes on, and lists alice.
abbrev again : Beat
again = record { epoch = 7; feed_stale = false; stopping = false }

abbrev after_beats : BeatRoom (holding listing) list_sets maps
after_beats =
    beats_after (holding listing) list_sets maps settings ((again, some listing, pos 22) ∷ [])
      after_stop

stop_accepted :
    (beat_room (holding listing) list_sets maps settings stop none (pos 20) beating).0.status
    ≢ beat_stale_epoch
unfolding beat_room vis_adopt epoch_decide authority_stale ◌-ℤ◌
stop_accepted e = cc

beat_room-stopped_example :
    vis_ok list_sets maps settings after_beats.room (some alice) (pos 23) ≡ false
beat_room-stopped_example =
    beat_room-stopped (holding listing) list_sets maps settings stop none (pos 20) (pos 23) beating
      ((again, some listing, pos 22) ∷ []) (some alice) refl stop_accepted

abbrev sessions : List (Watched list_sets)
sessions =
    record { member = member 1 alice; vis_ok_last = true }
    ∷ record { member = member 2 bob; vis_ok_last = true }
    ∷ []

vis_transitions_settled_example :
    ((vis_transitions list_sets maps settings after_stop.room (pos 21) sessions).told
      ≡ told_presence 1 bob false ∷ told_presence 2 alice false ∷ [])
    × (map
          (λ (w : Watched list_sets). w.vis_ok_last)
          (vis_transitions list_sets maps settings after_stop.room (pos 21) sessions).sessions
        ≡ map (standing list_sets maps settings after_stop.room (pos 21)) sessions)
    × ((vis_transitions list_sets maps settings after_stop.room
          (pos 21)
          (vis_transitions list_sets maps settings after_stop.room (pos 21) sessions).sessions).told
        ≡ [])
unfolding vis_ok beat_room str_eq vis_row col_has
vis_transitions_settled_example =
    vis_transitions_settled list_sets maps settings after_stop.room (pos 21) sessions
