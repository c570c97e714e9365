-- ===== src/Visibility/Apart.antt =====
-- The rooms of a heartbeat do not meet: each is changed by its own entries only.
use legion_voice_mixer.Prelude.{
  ◌⊎◌, inl, inr, ℕ, ◌≡◌, Bool, false, refl, sym, subst, some_inj, Bool-cases, ==_iff, not, ◌&&◌,
  length, ap, ◌∙◌, List, [], ◌∷◌, Option, none, some, CString, codes, ◌==◌, if◌then◌else◌, arith,
}
use legion_voice_mixer.Prelude.Int.{ℤ}
use legion_voice_mixer.Glib.{StrSet, StrMap, map_option}
use legion_voice_mixer.Json.{Json}
use legion_voice_mixer.Visibility.{Settings, VisRecord}
use legion_voice_mixer.Visibility.Heartbeat.{Beat, BeatError, BeatRoom, beat_room, parse_beat}
use legion_voice_mixer.Visibility.Rounds.{
  at_room, put_room, Strtoull, room_number, Rooms, room_by_id, beat_numbered, beat_rooms, rooms_of,
  handle_heartbeat,
}

at_room-put_room {ℓ} :
    {A : Type ℓ} (n id : ℕ) (b : A) (rooms : List (ℕ × A))
    → at_room id (put_room n b rooms)
      ≡ (if n == id then map_option (λ c. b) (at_room id rooms) else at_room id rooms)
at_room-put_room n id b [] = ground arith
at_room-put_room n id b ((k, d) ∷ rooms) = ground (arith, at_room-put_room n id b rooms)

at_room-put_room_own :
    {A : Type 0} (n id : ℕ) (f : A → A) (b : A) (rooms : List (ℕ × A))
    → at_room n rooms ≡ some b
    → at_room id (put_room n (f b) rooms)
      ≡ map_option (λ c. if n == id then f c else c) (at_room id rooms)
at_room-put_room_own n id f b [] h = cc
at_room-put_room_own n id f b ((k, d) ∷ rooms) h =
    ground (arith, h, at_room-put_room n id (f b) ((k, d) ∷ rooms))

map_option_comp {ℓ} :
    {A : Type ℓ} (f g : A → A) (o : Option A)
    → map_option f (map_option g o) ≡ map_option (λ a. f (g a)) o
map_option_comp f g none = refl
map_option_comp f g (some a) = refl

-- A room whose own change is none.
at_room_kept :
    {A : Type 0} (n id : ℕ) (f : A → A) (b : A) (rooms : List (ℕ × A))
    → at_room n rooms ≡ some b
    → f b ≡ b
    → at_room id rooms ≡ map_option (λ c. if n == id then f c else c) (at_room id rooms)
at_room_kept n id f b rooms h k = go (at_room id rooms) refl
  where
    go : (o : Option _) → at_room id rooms ≡ o → o ≡ map_option (λ c. if n == id then f c else c) o
    go none e = refl
    go (some c) e = elim (Bool-cases (n == id)) [
      | inl same ↦
          let at : n ≡ id = (==_iff n id).0 same in
          let this : some c ≡ some b = sym e ∙ subst (λ x. at_room x rooms ≡ some b) at h in
          rw same (ap some (sym (subst (λ x. f x ≡ x) (sym (some_inj this)) k)))
      | inr other ↦ rw other refl
    ]

at_room_missing :
    {A : Type 0} (n id : ℕ) (f : A → A) (rooms : List (ℕ × A))
    → at_room n rooms ≡ none
    → at_room id rooms ≡ map_option (λ c. if n == id then f c else c) (at_room id rooms)
at_room_missing n id f [] h = refl
at_room_missing n id f ((k, d) ∷ rooms) h = ground (arith, h, at_room_missing n id f rooms)

-- Is the key the number `id`, written from end to end, and is that a room's number?
abbrev pub is_named : Strtoull → ℕ → CString → Bool
is_named strtoull id key =
    not (id == 0)
    && (strtoull.value key == id && (strtoull.consumed key == length key && not (length key == 0)))

is_named-none :
    (strtoull : Strtoull) (id : ℕ) (key : CString)
    → room_number strtoull key ≡ none
    → is_named strtoull id key ≡ false
unfolding room_number
is_named-none strtoull id key h = ground (arith, h, strtoull.consumed_fits key)

is_named-some :
    (strtoull : Strtoull) (id n : ℕ) (key : CString)
    → room_number strtoull key ≡ some n
    → is_named strtoull id key ≡ (n == id)
unfolding room_number
is_named-some strtoull id n key h = ground (arith, h, strtoull.consumed_fits key)

module _ (json : Json) (sets : StrSet) (maps : StrMap (VisRecord sets)) (settings : Settings)
    (strtoull : Strtoull) where
  -- What an entry makes of its room: a destroyed one is left as it is.
  abbrev pub live_beat : Beat → ℤ → json.Value → BeatRoom json sets maps → BeatRoom json sets maps
  live_beat beat now entry b =
      if b.destroyed then b else (beat_room json sets maps settings beat (some entry) now b).1

  abbrev pub keyed_beat :
      Beat → ℤ → Bool → json.Value → BeatRoom json sets maps → BeatRoom json sets maps
  keyed_beat beat now own entry b = if own then live_beat beat now entry b else b

  -- What the entries of one room make of it.
  abbrev pub room_beats :
      Beat → ℤ → ℕ → List (CString × json.Value) → BeatRoom json sets maps → BeatRoom json sets maps
  room_beats beat now id [] b = b
  room_beats beat now id ((key, entry) ∷ entries) b =
      room_beats beat now id entries (keyed_beat beat now (is_named strtoull id key) entry b)

  at_room-beat_numbered :
      (beat : Beat) (now : ℤ) (n id : ℕ) (entry : json.Value)
      (rooms : Rooms json sets maps settings strtoull)
      → at_room id (beat_numbered json sets maps settings strtoull beat now n entry rooms).1
        ≡ map_option (keyed_beat beat now (n == id) entry) (at_room id rooms)
  unfolding beat_numbered room_by_id
  at_room-beat_numbered beat now n id entry rooms = go (at_room n rooms) refl
    where
      go :
          (o : Option (BeatRoom json sets maps))
          → at_room n rooms ≡ o
          → at_room id (beat_numbered json sets maps settings strtoull beat now n entry rooms).1
            ≡ map_option (keyed_beat beat now (n == id) entry) (at_room id rooms)
      go none e =
          rw (e, beat_numbered, room_by_id)
            (at_room_missing n id (live_beat beat now entry) rooms e)
      go (some b) e = elim (Bool-cases b.destroyed) [
        | inl gone ↦
            rw (e, beat_numbered, room_by_id)
              (rw gone (at_room_kept n id (live_beat beat now entry) b rooms e (rw gone refl)))
        | inr live ↦
            let put = at_room-put_room_own n id (live_beat beat now entry) b rooms e in
            rw (e, beat_numbered, room_by_id) (rw live (rw live at put))
      ]

  -- Each room that a heartbeat reaches ends as its own entries leave it.
  at_room-beat_rooms :
      (beat : Beat) (now : ℤ) (id : ℕ) (entries : List (CString × json.Value))
      (rooms : Rooms json sets maps settings strtoull)
      → at_room id (beat_rooms json sets maps settings strtoull beat now entries rooms).1
        ≡ map_option (room_beats beat now id entries) (at_room id rooms)
  unfolding beat_rooms
  at_room-beat_rooms beat now id [] rooms = go (at_room id rooms)
    where
      go : (o : Option (BeatRoom json sets maps)) → o ≡ map_option (room_beats beat now id []) o
      go none = refl
      go (some b) = refl
  at_room-beat_rooms beat now id ((key, entry) ∷ entries) rooms =
      go (room_number strtoull key) refl (λ rs. at_room-beat_rooms beat now id entries rs)
    where
      go :
          (o : Option ℕ)
          → room_number strtoull key ≡ o
          → ((rs : Rooms json sets maps settings strtoull)
              → at_room id (beat_rooms json sets maps settings strtoull beat now entries rs).1
                ≡ map_option (room_beats beat now id entries) (at_room id rs))
          → at_room id
              (beat_rooms json sets maps settings strtoull beat now
                ((key, entry) ∷ entries)
                rooms).1
            ≡ map_option
                (λ b.
                  room_beats beat now id entries
                    (keyed_beat beat now (is_named strtoull id key) entry b))
                (at_room id rooms)
      go none e ih =
          rw (e, beat_rooms)
            (subst
              (λ t.
                at_room id (beat_rooms json sets maps settings strtoull beat now entries rooms).1
                ≡ map_option (λ b. room_beats beat now id entries (keyed_beat beat now t entry b))
                    (at_room id rooms))
              (sym (is_named-none strtoull id key e)) (ih rooms))
      go (some n) e ih =
          let rooms' = (beat_numbered json sets maps settings strtoull beat now n entry rooms).1 in
          rw (e, beat_rooms)
            (subst
              (λ t.
                at_room id (beat_rooms json sets maps settings strtoull beat now entries rooms').1
                ≡ map_option (λ b. room_beats beat now id entries (keyed_beat beat now t entry b))
                    (at_room id rooms))
              (sym (is_named-some strtoull id n key e))
              (ih rooms'
                ∙ ap (map_option (room_beats beat now id entries))
                    (at_room-beat_numbered beat now n id entry rooms)
                ∙ map_option_comp (room_beats beat now id entries)
                    (keyed_beat beat now (n == id) entry) (at_room id rooms)))

  abbrev pub beaten :
      Beat ⊎ BeatError
      → json.Value
      → ℤ
      → ℕ
      → Option (BeatRoom json sets maps)
      → Option (BeatRoom json sets maps)
  beaten (inl beat) message now id o =
      map_option
        (room_beats beat now id
          (rooms_of json sets maps settings strtoull (json.object_get message (codes "rooms"))))
        o
  beaten (inr e) message now id o = o

  -- A heartbeat changes each room by the entries whose key is that room's number, one after the other, and
  -- by nothing else. A key is a room's number when the number read from it is not 0 and ends where the key,
  -- which is not empty, ends. A room that no entry names stays as it was, and so does a destroyed one, and
  -- every room where the heartbeat is refused.
  pub handle_heartbeat-room_beats :
      (message : json.Value) (now : ℤ) (rooms : Rooms json sets maps settings strtoull) (id : ℕ)
      → at_room id (handle_heartbeat json sets maps settings strtoull message now rooms).1
        ≡ beaten (parse_beat json sets maps settings message) message now id (at_room id rooms)
  unfolding handle_heartbeat
  handle_heartbeat-room_beats message now rooms id =
      go (parse_beat json sets maps settings message) refl
    where
      go :
          (p : Beat ⊎ BeatError)
          → parse_beat json sets maps settings message ≡ p
          → at_room id (handle_heartbeat json sets maps settings strtoull message now rooms).1
            ≡ beaten p message now id (at_room id rooms)
      go (inr x) e = rw (e, handle_heartbeat) refl
      go (inl beat) e =
          rw (e, handle_heartbeat)
            (at_room-beat_rooms beat now id
              (rooms_of json sets maps settings strtoull (json.object_get message (codes "rooms")))
              rooms)
