-- ===== src/Positions/Parse.antt =====
-- `slv_posbatch_parse` of src/possync.c and its helpers, over Jansson's values.
use legion_voice_mixer.Prelude.{
  ℕ, suc, ◌+◌, ◌-◌, Bool, false, not, ◌&&◌, ◌||◌, List, [], ◌∷◌, Option, none, some, CString, codes,
  length, leb, ltb, ◌==◌, str_eq, get_elem?, if◌then◌else◌,
}
use legion_voice_mixer.Prelude.Int.{ℤ, pos, ◌-ℤ◌, ltb_ℤ}
use legion_voice_mixer.Json.{Json, holds}
use legion_voice_mixer.Hex.{parse_epoch}
use legion_voice_mixer.Glib.{is_some}
use legion_voice_mixer.Positions.{
  max_bytes, max_entries, coord_max, speed_max, tol_max, int64_max, Status, pos_ok, pos_malformed,
  pos_toobig, PosEntry, PosBatch,
}

abbrev pub is_dash_place : ℕ → Bool
is_dash_place i = i == 8 || i == 13 || i == 18 || i == 23

abbrev pub is_lower_hex : ℕ → Bool
is_lower_hex c = (leb b'0' c && leb c b'9') || (leb b'a' c && leb c b'f')

abbrev pub is_upper_hex : ℕ → Bool
is_upper_hex c = leb b'A' c && leb c b'F'

-- The byte that goes to place `i`, `none` when the name is refused there.
unfoldable pub canon_byte : ℕ → ℕ → Option ℕ
canon_byte i c =
    if is_dash_place i
    then (if c == b'-' then some c else none)
    else if is_upper_hex c
    then some (c - b'A' + b'a')
    else if is_lower_hex c
    then some c
    else none

abbrev pub push : ℕ → Option CString → Option CString
push c none = none
push c (some cs) = some (c ∷ cs)

-- The loop from place `i` on.
unfoldable pub canon_loop : ℕ → CString → Option CString
unfolding canon_byte
canon_loop i [] = some []
canon_loop i (c ∷ cs) = elim (canon_byte i c) [
  | none ↦ none
  | some d ↦ push d (canon_loop (suc i) cs)
]

-- `slv_pos_uuid_canon` at a string that is not NULL.
unfoldable pub uuid_canon : CString → Option CString
unfolding canon_loop
uuid_canon s = if length s == 36 then canon_loop 0 s else none

abbrev pub zeroed : PosBatch
zeroed = record {
  room = pos 0;
  seq = pos 0;
  full = false;
  enforce_requested = false;
  has_epoch = false;
  room_epoch = 0;
  entries = [];
  n_skipped = 0;
}

infixl 5 ◌>>=◌
abbrev pub ◌>>=◌ {ℓ κ} : {A : Type ℓ} {B : Type κ} → Option A → (A → Option B) → Option B
none >>= f = none
some a >>= f = f a

module _ (json : Json) where
  -- `slv_pos_int`
  unfoldable pub pos_int : Option json.Value → ℤ → ℤ → Option ℤ
  pos_int none lo hi = none
  pos_int (some v) lo hi =
      let i = json.integer_value v in
      if json.is_integer v && not (ltb_ℤ i lo || ltb_ℤ hi i) then some i else none

  -- A coordinate: member `k` of an entry's array.
  abbrev pub coord : List json.Value → ℕ → Option ℤ
  coord items k = pos_int (get_elem? items k) (pos 0 -ℤ pos coord_max) (pos coord_max)

  -- The first five members of an entry's array, after its name.
  unfoldable pub parse_members : CString → List json.Value → Option PosEntry
  unfolding uuid_canon pos_int
  parse_members key items = do
    uuid ← uuid_canon key
    x ← coord items 0
    y ← coord items 1
    z ← coord items 2
    speed ← pos_int (get_elem? items 3) (pos 0) (pos speed_max)
    tol ← pos_int (get_elem? items 4) (pos 0) (pos tol_max)
    some (record { uuid = uuid; x = x; y = y; z = z; speed_cms = speed; tol_cm = tol })

  -- `slv_pos_parse_entry`
  unfoldable pub parse_entry : CString → json.Value → Option PosEntry
  unfolding parse_members
  parse_entry key val =
      if json.is_array val && not (ltb (json.array_size val) 5)
      then parse_members key (json.array_items val)
      else none

  -- The loop over "pos": the entries that it keeps, and how many it skips.
  unfoldable pub entry_loop : List (CString × json.Value) → List PosEntry × ℕ
  unfolding parse_entry
  entry_loop [] = ([], 0)
  entry_loop ((k, v) ∷ items) =
      let rest = entry_loop items in
      elim (parse_entry k v) [ none ↦ (rest.0, rest.1 + 1) | some e ↦ (e ∷ rest.0, rest.1) ]

  -- `room_epoch`: `none` when it is malformed, `some none` when there is none.
  unfoldable pub parse_room_epoch : Option json.Value → Option (Option ℕ)
  unfolding parse_epoch
  parse_room_epoch none = some none
  parse_room_epoch (some v) =
      if json.is_string v
      then elim (parse_epoch (json.string_value v)) [ none ↦ none | some e ↦ some (some e) ]
      else none

  abbrev pub is_enforce : Option json.Value → Bool
  is_enforce none = false
  is_enforce (some v) = str_eq (json.string_value v) (codes "enforce")

  abbrev pub or_zero : Option ℕ → ℕ
  or_zero none = 0
  or_zero (some n) = n

  -- "pos", when it has no more entries than a request may carry. `alloc` is whether `calloc` succeeds.
  unfoldable pub parse_entries : Bool → json.Value → PosBatch → Status × PosBatch
  unfolding entry_loop
  parse_entries alloc pos_object out =
      let found = entry_loop (json.object_entries pos_object) in
      if ltb max_entries (json.object_size pos_object)
      then (pos_toobig, zeroed)
      else if ltb 0 (json.object_size pos_object) && not alloc
      then (pos_malformed, zeroed)
      else (pos_ok, record out { entries = found.0; n_skipped = found.1 })

  -- The types that the other fields must have, and the batch without its entries.
  unfoldable pub with_fields :
      ℤ
      → ℤ
      → json.Value
      → json.Value
      → Option ℕ
      → Option json.Value
      → Option (json.Value × PosBatch)
  with_fields room seq full pos_object epoch mode =
      if json.is_boolean full
        && json.is_object pos_object
        && (not (is_some mode) || holds json.is_string mode)
      then some (
        pos_object,
        record zeroed {
          room = room;
          seq = seq;
          full = json.is_true full;
          has_epoch = is_some epoch;
          room_epoch = or_zero epoch;
          enforce_requested = is_enforce mode;
        },
      )
      else none

  -- The fields around the entries: what makes the request valid, "pos" and the batch without its entries.
  unfoldable pub parse_fields : json.Value → Option (json.Value × PosBatch)
  unfolding pos_int parse_room_epoch with_fields
  parse_fields root = do
    room ← pos_int (json.object_get root (codes "room")) (pos 0) (pos int64_max)
    seq ← pos_int (json.object_get root (codes "seq")) (pos 1) (pos int64_max)
    full ← json.object_get root (codes "full")
    pos_object ← json.object_get root (codes "pos")
    epoch ← parse_room_epoch (json.object_get root (codes "room_epoch"))
    with_fields room seq full pos_object epoch (json.object_get root (codes "mode"))

  unfoldable pub parse_root : Bool → json.Value → Status × PosBatch
  unfolding parse_fields parse_entries
  parse_root alloc root = elim (parse_fields root) [
    | none ↦ (pos_malformed, zeroed)
    | some (pos_object, out) ↦ parse_entries alloc pos_object out
  ]

  -- `slv_posbatch_parse`, with `none` for a NULL buffer.
  unfoldable pub posbatch_parse : Bool → Option (List ℕ) → Status × PosBatch
  unfolding parse_root
  posbatch_parse alloc none = (pos_malformed, zeroed)
  posbatch_parse alloc (some buf) =
      if length buf == 0
      then (pos_malformed, zeroed)
      else if ltb max_bytes (length buf)
      then (pos_toobig, zeroed)
      else elim (json.loadb buf) [
        | none ↦ (pos_malformed, zeroed)
        | some root ↦ if json.is_object root then parse_root alloc root else (pos_malformed, zeroed)
      ]
