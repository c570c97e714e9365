-- ===== src/Visibility/Rounds.antt =====
-- A whole heartbeat: `janus_slvoice_handle_heartbeat` of src/janus_slvoice.c, its entries in their order
-- at the rooms that they name, the table of all rooms by their ids; the reply is what each room answers, under its key. Each room is locked in its turn, and what other
-- threads do between two turns is left out. `g_ascii_strtoull`, of GLib, is a parameter.
use legion_voice_mixer.Prelude.{
  ◌⊎◌, inl, inr, ℕ, ◌≤◌, ◌||◌, length, ltb, List, [], ◌∷◌, Option, none, some, CString, codes, ◌==◌,
  if◌then◌else◌,
}
use legion_voice_mixer.Prelude.Int.{ℤ}
use legion_voice_mixer.Glib.{StrSet, StrMap}
use legion_voice_mixer.Json.{Json}
use legion_voice_mixer.Visibility.{Settings, VisRecord}
use legion_voice_mixer.Visibility.Heartbeat.{
  Beat, BeatReply, BeatError, BeatRoom, beat_unknown_room, reply_status, beat_room, parse_beat,
}

abbrev pub at_room {ℓ} : {A : Type ℓ} → ℕ → List (ℕ × A) → Option A
at_room id [] = none
at_room id ((k, b) ∷ rooms) = if k == id then some b else at_room id rooms

-- The room of that id, changed in place.
abbrev pub put_room {ℓ} : {A : Type ℓ} → ℕ → A → List (ℕ × A) → List (ℕ × A)
put_room id b [] = []
put_room id b ((k, c) ∷ rooms) =
    let rest = put_room id b rooms in if k == id then (k, b) ∷ rest else (k, c) ∷ rest

-- `g_ascii_strtoull(key, &end, 10)`: the value, and the number of bytes up to `end`, which is within the text.
pub record Strtoull : Type 0 where
  pub value : CString → ℕ
  pub consumed : CString → ℕ
  pub consumed_fits : (key : CString) → consumed key ≤ length key

-- The number of a room that a key is from end to end. `end` is at its start, or before its end, or 0 was read.
unfoldable pub room_number : Strtoull → CString → Option ℕ
room_number strtoull key =
    if strtoull.consumed key == 0
      || (ltb (strtoull.consumed key) (length key) || strtoull.value key == 0)
    then none
    else some (strtoull.value key)

module _ (json : Json) (sets : StrSet) (maps : StrMap (VisRecord sets)) (settings : Settings)
    (strtoull : Strtoull) where
  abbrev pub Rooms : Type 0
  Rooms = List (ℕ × BeatRoom json sets maps)

  abbrev pub Replies : Type 0
  Replies = List (CString × BeatReply)

  -- `janus_slvoice_room_ref_by_id`
  unfoldable pub room_by_id : ℕ → Rooms → Option (BeatRoom json sets maps)
  room_by_id id rooms = elim (at_room id rooms) [
    | none ↦ none
    | some b ↦ if b.destroyed then none else some b
  ]

  -- The entry of a room number, and the reply of its room.
  unfoldable pub beat_numbered : Beat → ℤ → ℕ → json.Value → Rooms → BeatReply × Rooms
  unfolding beat_room room_by_id
  beat_numbered beat now id entry rooms = elim (room_by_id id rooms) [
    | none ↦ (reply_status beat_unknown_room, rooms)
    | some b ↦
        let (reply, b') = beat_room json sets maps settings beat (some entry) now b in
        (reply, put_room id b' rooms)
  ]

  -- The loop over the rooms of the message; a key that is no room number is passed over.
  unfoldable pub beat_rooms : Beat → ℤ → List (CString × json.Value) → Rooms → Replies × Rooms
  unfolding beat_numbered room_number
  beat_rooms beat now [] rooms = ([], rooms)
  beat_rooms beat now ((key, entry) ∷ entries) rooms = elim (room_number strtoull key) [
    | none ↦ beat_rooms beat now entries rooms
    | some id ↦
        let (reply, rooms') = beat_numbered beat now id entry rooms in
        let (replies, rest) = beat_rooms beat now entries rooms' in ((key, reply) ∷ replies, rest)
  ]

  -- `json_object_foreach` visits nothing of a missing value.
  abbrev pub rooms_of : Option json.Value → List (CString × json.Value)
  rooms_of none = []
  rooms_of (some v) = json.object_entries v

  unfoldable pub handle_heartbeat : json.Value → ℤ → Rooms → (Replies ⊎ BeatError) × Rooms
  unfolding parse_beat beat_rooms
  handle_heartbeat message now rooms = elim (parse_beat json sets maps settings message) [
    | inr e ↦ (inr e, rooms)
    | inl beat ↦
        let (replies, rooms') =
          beat_rooms beat now (rooms_of (json.object_get message (codes "rooms"))) rooms in
        (inl replies, rooms')
  ]
