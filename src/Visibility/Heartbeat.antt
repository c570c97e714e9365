-- ===== src/Visibility/Heartbeat.antt =====
-- A heartbeat of the authority: `janus_slvoice_vis_heartbeat_listeners_locked` and
-- `janus_slvoice_handle_heartbeat` of src/janus_slvoice.c. Each room is locked in its turn, so an entry of
-- the message is one step of its room; the logs and the common keys of the reply are left out.
use legion_voice_mixer.Prelude.{
  ◌⊎◌, inl, inr, ℕ, ◌+◌, ◌%◌, ◌^◌, Bool, true, false, not, ◌&&◌, ◌||◌, List, [], ◌∷◌, ◌++◌, Option,
  none, some, CString, codes, str_eq, ltb, ◌==◌, if◌then◌else◌,
}
use legion_voice_mixer.Prelude.Int.{ℤ, pos, negsuc, pos_part, ltb_ℤ, eqb_ℤ}
use legion_voice_mixer.Glib.{StrSet, StrMap, is_some}
use legion_voice_mixer.Json.{Json, holds}
use legion_voice_mixer.Hex.{parse_epoch}
use legion_voice_mixer.Knobs.{stale_ms_max}
use legion_voice_mixer.Authority.{stale_min_ms, feed_live}
use legion_voice_mixer.Columns.{Column}
use legion_voice_mixer.Visibility.{Settings, VisRecord, Room}
use legion_voice_mixer.Visibility.Authority.{is_stale, vis_adopt}

abbrev pub count64 : ℕ → ℕ
count64 n = (n + 1) % 2 ^ 64

-- What a heartbeat answers for one room.
pub data BeatStatus : Type 0 where
  beat_ok beat_undeclared beat_stale_epoch beat_feed_stale beat_unknown_room : BeatStatus

pub record BeatReply : Type 0 where
  pub status : BeatStatus
  pub stale : Column
  pub unarmed : Column

abbrev pub reply_status : BeatStatus → BeatReply
reply_status st = record { status = st; stale = []; unarmed = [] }

-- A heartbeat is refused whole, or its parts.
pub data BeatError : Type 0 where
  beat_malformed interval_too_long : BeatError

pub record Beat : Type 0 where
  pub epoch : ℕ
  pub feed_stale : Bool
  pub stopping : Bool

module _ (json : Json) (sets : StrSet) (maps : StrMap (VisRecord sets)) where
  -- The records under change, and the two lists of the reply.
  pub record Listening : Type 0 where
    pub records : maps.Map
    pub stale : Column
    pub unarmed : Column

  -- A listed listener with a record of this epoch.
  unfoldable pub beat_record : ℤ → CString → json.Value → VisRecord sets → Listening → Listening
  beat_record now listener g r s =
      if json.is_integer g && eqb_ℤ (json.integer_value g) (pos r.listener_gen)
      then record s {
        records = maps.insert s.records listener (record r { confirmed_us = now });
        stale = if r.stale then s.stale ++ listener ∷ [] else s.stale;
      }
      else record s {
        records = maps.insert s.records listener (record r { stale = true });
        stale = s.stale ++ listener ∷ [];
      }

  -- One round of the loop over the listed listeners.
  unfoldable pub beat_listener : ℕ → ℤ → CString → json.Value → Listening → Listening
  unfolding beat_record
  beat_listener auth_epoch now listener g s = elim (maps.lookup s.records listener) [
    | none ↦ record s { unarmed = s.unarmed ++ listener ∷ [] }
    | some r ↦
        if r.epoch == auth_epoch
        then beat_record now listener g r s
        else record s { unarmed = s.unarmed ++ listener ∷ [] }
  ]

  unfoldable pub beat_listeners : ℕ → ℤ → List (CString × json.Value) → Listening → Listening
  unfolding beat_listener
  beat_listeners auth_epoch now [] s = s
  beat_listeners auth_epoch now ((listener, g) ∷ items) s =
      beat_listeners auth_epoch now items (beat_listener auth_epoch now listener g s)

  abbrev pub listed : List (CString × json.Value) → sets.Keys
  listed [] = sets.empty
  listed ((listener, g) ∷ items) = sets.add (listed items) listener

  abbrev pub listeners_of : Option json.Value → List (CString × json.Value)
  listeners_of none = []
  listeners_of (some v) = if json.is_object v then json.object_entries v else []

  -- `janus_slvoice_vis_heartbeat_listeners_locked`: what is listed, and then the disarming of the rest.
  unfoldable pub heartbeat_listeners : ℕ → ℤ → Option json.Value → maps.Map → Listening
  unfolding beat_listeners
  heartbeat_listeners auth_epoch now listeners records =
      let items = listeners_of listeners in
      let s =
        beat_listeners auth_epoch now items
          (record { records = records; stale = []; unarmed = [] }) in
      record s { records = maps.keep s.records (sets.contains (listed items)) }

  -- A room with its counters of heartbeats, and whether it is destroyed.
  pub record BeatRoom : Type 0 where
    pub room : Room sets maps
    pub destroyed : Bool
    pub vis_heartbeats : ℕ
    pub vis_heartbeats_outdated : ℕ
    pub vis_heartbeats_feed_stale : ℕ

  abbrev pub member : Option json.Value → CString → Option json.Value
  member none k = none
  member (some v) k = if json.is_object v then json.object_get v k else none

  -- Was the entry built before the last batch that the room applied?
  unfoldable pub is_outdated : Option json.Value → ℕ → Bool
  is_outdated none policy_gen = false
  is_outdated (some as_of) policy_gen =
      json.is_integer as_of
      && (not (ltb_ℤ (json.integer_value as_of) (pos 0))
          && ltb (pos_part (json.integer_value as_of)) policy_gen)

  abbrev pub marked : VisRecord sets → VisRecord sets
  marked r = record r { stale = true }

  -- A graceful stop: every record is stale at once, and the authority has no last message.
  unfoldable pub beat_stop : BeatRoom → BeatRoom
  beat_stop b = record b {
    vis_heartbeats = count64 b.vis_heartbeats;
    room = record b.room {
      vis_records = maps.update_all b.room.vis_records marked;
      vis_auth_last_us = pos 0;
    };
  }

  abbrev pub declared_status : Room sets maps → BeatStatus
  declared_status room = if room.vis_declared then beat_ok else beat_undeclared

  -- A heartbeat that is neither stale nor a stop.
  unfoldable pub beat_live : Option json.Value → ℤ → BeatRoom → BeatReply × BeatRoom
  unfolding heartbeat_listeners is_outdated
  beat_live entry now b =
      let s =
        heartbeat_listeners b.room.vis_auth_epoch now (member entry (codes "listeners"))
          b.room.vis_records in
      if is_outdated (member entry (codes "as_of")) b.room.vis_policy_gen
      then (
        reply_status (declared_status b.room),
        record b {
          vis_heartbeats = count64 b.vis_heartbeats;
          vis_heartbeats_outdated = count64 b.vis_heartbeats_outdated;
        },
      )
      else (
        record { status = declared_status b.room; stale = s.stale; unarmed = s.unarmed },
        record b {
          vis_heartbeats = count64 b.vis_heartbeats;
          room = record b.room { vis_records = s.records };
        },
      )

module _ (json : Json) (sets : StrSet) (maps : StrMap (VisRecord sets)) (settings : Settings) where
  -- One entry of a heartbeat at its room, under the room's lock.
  unfoldable pub beat_room :
      Beat → Option json.Value → ℤ → BeatRoom json sets maps → BeatReply × BeatRoom json sets maps
  unfolding vis_adopt beat_stop beat_live
  beat_room beat entry now b =
      let (room, v) = vis_adopt sets maps settings beat.epoch now b.room in
      let adopted = record b { room = room } in
      if beat.feed_stale && not beat.stopping
      then (
        reply_status beat_feed_stale,
        record b { vis_heartbeats_feed_stale = count64 b.vis_heartbeats_feed_stale },
      )
      else if is_stale v
      then (reply_status beat_stale_epoch, adopted)
      else if beat.stopping
      then (reply_status (declared_status json sets maps room), beat_stop json sets maps adopted)
      else beat_live json sets maps entry now adopted

  -- Is `interval_ms` one that the staleness window cannot absorb?
  unfoldable pub is_too_long : ℕ → Bool
  unfolding stale_min_ms
  is_too_long interval = ltb stale_ms_max interval || ltb settings.stale_ms (stale_min_ms interval)

  abbrev pub age_of : Option json.Value → ℤ
  age_of none = negsuc 0
  age_of (some v) = if json.is_integer v then json.integer_value v else negsuc 0

  abbrev pub is_stopping : Option json.Value → Bool
  is_stopping none = false
  is_stopping (some v) = json.is_string v && str_eq (json.string_value v) (codes "stopping")

  abbrev pub epoch_in : Option json.Value → Option ℕ
  epoch_in none = none
  epoch_in (some v) = if json.is_string v then parse_epoch (json.string_value v) else none

  abbrev pub interval_in : Option json.Value → Option ℕ
  interval_in none = none
  interval_in (some v) =
      if json.is_integer v && not (ltb_ℤ (json.integer_value v) (pos 1))
      then some (pos_part (json.integer_value v))
      else none

  abbrev pub checked_interval : ℕ → Option json.Value → Option json.Value → ℕ → Beat ⊎ BeatError
  checked_interval epoch feed_age state interval =
      if is_too_long interval
      then inr interval_too_long
      else inl (record {
        epoch = epoch;
        feed_stale =
            not (feed_live (holds json.is_integer feed_age) (age_of feed_age) settings.stale_ms);
        stopping = is_stopping state;
      })

  -- The fields of a heartbeat, up to the loop over its rooms.
  unfoldable pub parse_beat : json.Value → Beat ⊎ BeatError
  unfolding parse_epoch is_too_long feed_live
  parse_beat message =
      let get = json.object_get message in
      elim (epoch_in (get (codes "room_epoch"))) [
        | none ↦ inr beat_malformed
        | some epoch ↦ elim (interval_in (get (codes "interval_ms"))) [
          | none ↦ inr beat_malformed
          | some interval ↦
              if is_some (get (codes "rooms")) && not (holds json.is_object (get (codes "rooms")))
              then inr beat_malformed
              else checked_interval epoch (get (codes "feed_age_ms")) (get (codes "state")) interval
        ]
      ]
