-- ===== src/Rooms/Laws.antt =====
-- What the sweep of empty rooms destroys, and whom it disturbs.
use legion_voice_mixer.Prelude.{
  ℕ, ◌*◌, ◌≡◌, refl, Bool, true, false, not, ◌&&◌, ◌||◌, List, [], ◌∷◌, ◌==◌, arith, if◌then◌else◌,
}
use legion_voice_mixer.Prelude.Int.{ℤ, pos}
use legion_voice_mixer.Swap.{any}
use legion_voice_mixer.Rooms.{
  has_id, LiveRoom, Seat, System, is_none, is_in, is_expired, evict, drop_room, teardown,
  teardown_all, expired, sweep_empty_rooms,
}

-- Every session that points at the room is among its participants.
abbrev pub all_listed : LiveRoom → List Seat → Bool
all_listed r [] = true
all_listed r (s ∷ ss) =
    (not (is_in r.room_id s.room) || has_id s.user_id r.participants) && all_listed r ss

abbrev pub Consistent : List LiveRoom → List Seat → Type 0
Consistent [] ss = Unit {0}
Consistent (r ∷ rs) ss = (all_listed r ss ≡ true) × Consistent rs ss

no_ids : (us : List ℕ) (id : ℕ) → is_none us ≡ true → has_id id us ≡ false
no_ids [] id h = refl
no_ids (u ∷ us) id h = cc

evict_none : (r : LiveRoom) (ss : List Seat) → is_none r.participants ≡ true → evict r ss ≡ ss
unfolding evict
evict_none r [] h = refl
evict_none r (s ∷ ss) h = ground (arith, h, evict_none r ss, no_ids r.participants s.user_id)

-- A room without participants, of which all that point at it are listed, has nobody that does.
nobody_in :
    (r : LiveRoom) (ss : List Seat)
    → is_none r.participants ≡ true
    → all_listed r ss ≡ true
    → any (λ s. is_in r.room_id s.room) ss ≡ false
nobody_in r [] e h = refl
nobody_in r (s ∷ ss) e h = ground (arith, e, h, nobody_in r ss, no_ids r.participants s.user_id)

abbrev all_empty : List LiveRoom → Bool
all_empty [] = true
all_empty (r ∷ rs) = is_none r.participants && all_empty rs

expired_empty :
    (grace_us now : ℤ) (rs found : List LiveRoom)
    → all_empty found ≡ true
    → all_empty (expired grace_us now rs found) ≡ true
unfolding expired is_expired
expired_empty grace_us now [] found h = h
expired_empty grace_us now (r ∷ rs) found h = ground (
  arith,
  h,
  expired_empty grace_us now rs (if is_expired grace_us now r then r ∷ found else found),
)

sessions-teardown_all :
    (rs : List LiveRoom) (sys : System)
    → all_empty rs ≡ true
    → (teardown_all rs sys).sessions ≡ sys.sessions
unfolding teardown_all teardown
sessions-teardown_all [] sys h = refl
sessions-teardown_all (r ∷ rs) sys h =
    ground (arith, h, sessions-teardown_all rs (teardown r sys), evict_none r sys.sessions)

-- A room that some session points at has not expired.
occupied_kept :
    (grace_us now : ℤ) (k : ℕ) (rs : List LiveRoom) (ss : List Seat)
    → Consistent rs ss
    → any (λ s. is_in k s.room) ss ≡ true
    → any (λ r. r.room_id == k && is_expired grace_us now r) rs ≡ false
unfolding is_expired
occupied_kept grace_us now k [] ss c o = refl
occupied_kept grace_us now k (r ∷ rs) ss c o =
    ground (arith, o, occupied_kept grace_us now k rs ss c.1 o, nobody_in r ss, c.0)

abbrev pub has_room : ℕ → List LiveRoom → Bool
has_room id rs = any (λ r. r.room_id == id) rs

has_room-drop_room :
    (id k : ℕ) (rs : List LiveRoom)
    → has_room k (drop_room id rs) ≡ (has_room k rs && not (id == k))
unfolding drop_room
has_room-drop_room id k [] = refl
has_room-drop_room id k (r ∷ rs) = ground (arith, has_room-drop_room id k rs)

has_room-teardown_all :
    (gone : List LiveRoom) (k : ℕ) (sys : System)
    → has_room k (teardown_all gone sys).rooms ≡ (has_room k sys.rooms && not (has_room k gone))
unfolding teardown_all teardown
has_room-teardown_all [] k sys = ground arith
has_room-teardown_all (r ∷ gone) k sys =
    ground (
      arith,
      has_room-teardown_all gone k (teardown r sys),
      has_room-drop_room r.room_id k sys.rooms,
    )

has_room-expired :
    (grace_us now : ℤ) (k : ℕ) (rs found : List LiveRoom)
    → has_room k (expired grace_us now rs found)
      ≡ (has_room k found || any (λ r. r.room_id == k && is_expired grace_us now r) rs)
unfolding expired
has_room-expired grace_us now k [] found = ground arith
has_room-expired grace_us now k (r ∷ rs) found = ground (
  arith,
  has_room-expired grace_us now k rs (if is_expired grace_us now r then r ∷ found else found),
)

-- The sweep destroys exactly the rooms whose time is up: those that are neither permanent nor being
-- destroyed already, have no participants, and have been empty for the grace. With a grace of zero it
-- destroys none.
pub sweep_empty_rooms-rooms :
    (grace_s : ℕ) (now : ℤ) (sys : System) (k : ℕ)
    → has_room k (sweep_empty_rooms grace_s now sys).rooms ≡ (
        has_room k sys.rooms
        && (grace_s == 0
            || not (
                any (λ r. r.room_id == k && is_expired (pos (grace_s * 1000000)) now r) sys.rooms)))
unfolding sweep_empty_rooms
sweep_empty_rooms-rooms grace_s now sys k = ground (
  arith,
  has_room-teardown_all (expired (pos (grace_s * 1000000)) now sys.rooms []) k sys,
  has_room-expired (pos (grace_s * 1000000)) now k sys.rooms [],
)

-- The sweep takes no room from anybody: where every session that points at a room is among its
-- participants, a room that some session points at stays, and no session changes.
pub sweep_empty_rooms-occupied :
    (grace_s : ℕ) (now : ℤ) (sys : System) (k : ℕ)
    → Consistent sys.rooms sys.sessions
    → any (λ s. is_in k s.room) sys.sessions ≡ true
    → (has_room k (sweep_empty_rooms grace_s now sys).rooms ≡ has_room k sys.rooms)
      × ((sweep_empty_rooms grace_s now sys).sessions ≡ sys.sessions)
sweep_empty_rooms-occupied grace_s now sys k c o = (
  ground (
    arith,
    sweep_empty_rooms-rooms grace_s now sys k,
    occupied_kept (pos (grace_s * 1000000)) now k sys.rooms sys.sessions c o,
  ),
  unfold sweep_empty_rooms in
      ground (
        arith,
        sessions-teardown_all (expired (pos (grace_s * 1000000)) now sys.rooms []) sys,
        expired_empty (pos (grace_s * 1000000)) now sys.rooms [],
      ),
)
