-- ===== src/Positions/Bounds.antt =====
-- The limits that every parsed request of positions keeps, whatever the bytes.
use legion_voice_mixer.Prelude.{
  test_some, some_inj, ℕ, suc, ◌+◌, ◌≤◌, ◌≡◌, ◌≢◌, refl, ap, subst, Bool-cases, Bool, true, not,
  ◌&&◌, List, [], ◌∷◌, Option, none, some, CString, codes, length, ltb, ◌==◌, ==_iff, map,
  get_elem?, arith, if◌then◌else◌, Option-cases, inl, inr, choice, All,
}
use legion_voice_mixer.Prelude.Int.{ℤ, pos, ◌≤ℤ◌, ◌-ℤ◌}
use legion_voice_mixer.Glib.{is_some}
use legion_voice_mixer.Json.{Json}
use legion_voice_mixer.Hex.Laws.{parse_epoch_nonzero}
use legion_voice_mixer.Positions.{
  max_bytes, max_entries, coord_max, speed_max, tol_max, int64_max, Status, pos_ok, pos_malformed,
  pos_toobig, PosEntry, PosBatch,
}
use legion_voice_mixer.Positions.Parse.{
  is_dash_place, is_lower_hex, canon_byte, canon_loop, uuid_canon, zeroed, ◌>>=◌, with_fields,
  pos_int, coord, parse_members, parse_entry, entry_loop, parse_room_epoch, or_zero, parse_entries,
  parse_fields, parse_root, posbatch_parse,
}
use legion_voice_mixer.Positions.Store.{lower_byte}

-- The lowercase 8-4-4-4-12 form, from place `i` on.
abbrev pub is_canonical : ℕ → CString → Bool
is_canonical i [] = true
is_canonical i (c ∷ cs) =
    (if is_dash_place i then c == b'-' else is_lower_hex c) && is_canonical (suc i) cs

canon_byte_lem :
    (i c d : ℕ)
    → canon_byte i c ≡ some d
    → ((if is_dash_place i then d == b'-' else is_lower_hex d) ≡ true) × (d ≡ lower_byte c)
unfolding canon_byte lower_byte
canon_byte_lem i c d h = ground arith

canon_loop_lem :
    (i : ℕ) (s t : CString)
    → canon_loop i s ≡ some t
    → (is_canonical i t ≡ true) × (t ≡ map lower_byte s) × (length t ≡ length s)
unfolding canon_loop
canon_loop_lem i [] [] h = (refl, refl, refl)
canon_loop_lem i [] (d ∷ t) h = cc
canon_loop_lem i (c ∷ cs) [] h = ground arith
canon_loop_lem i (c ∷ cs) (d ∷ t) h =
    ground (arith, canon_byte_lem i c d, canon_loop_lem (suc i) cs t)

-- A range of integers.
abbrev pub Between : ℤ → ℤ → ℤ → Type 0
Between lo hi i = (lo ≤ℤ i) × (i ≤ℤ hi)

abbrev pub IsCoord : ℤ → Type 0
IsCoord = Between (pos 0 -ℤ pos coord_max) (pos coord_max)

pub record IsEntry (e : PosEntry) : Type 0 where
  pub sized : length e.uuid ≡ 36
  pub canonical : is_canonical 0 e.uuid ≡ true
  pub x : IsCoord e.x
  pub y : IsCoord e.y
  pub z : IsCoord e.z
  pub speed : Between (pos 0) (pos speed_max) e.speed_cms
  pub tol : Between (pos 0) (pos tol_max) e.tol_cm

bind_some {ℓ κ} :
    {A : Type ℓ} {B : Type κ} (o : Option A) (f : A → Option B) (b : B)
    → (o >>= f) ≡ some b
    → (a : A) × (o ≡ some a) × (f a ≡ some b)
bind_some none f b h = cc
bind_some (some a) f b h = (a, refl, h)

module _ (json : Json) where
  pos_int_range :
      (v : Option json.Value) (lo hi i : ℤ) → pos_int json v lo hi ≡ some i → Between lo hi i
  unfolding pos_int
  pos_int_range none lo hi i h = cc
  pos_int_range (some v) lo hi i h = ground arith

  parse_members-IsEntry :
      (k : CString) (items : List json.Value) (e : PosEntry)
      → parse_members json k items ≡ some e
      → IsEntry e × (e.uuid ≡ map lower_byte k)
  unfolding parse_members uuid_canon
  parse_members-IsEntry k items e h =
      let (uuid, hu, h1) = bind_some (uuid_canon k) _ e h in
      let (x, hx, h2) = bind_some (coord json items 0) _ e h1 in
      let (y, hy, h3) = bind_some (coord json items 1) _ e h2 in
      let (z, hz, h4) = bind_some (coord json items 2) _ e h3 in
      let (s, hs, h5) =
        bind_some (pos_int json (get_elem? items 3) (pos 0) (pos speed_max)) _ e h4 in
      let (t, ht, h6) = bind_some (pos_int json (get_elem? items 4) (pos 0) (pos tol_max)) _ e h5 in
      let (sized, hc) = test_some (length k == 36) (canon_loop 0 k) uuid hu in
      let (canonical, lower, same) = canon_loop_lem 0 k uuid hc in
      subst (λ (d : PosEntry). IsEntry d × (d.uuid ≡ map lower_byte k)) (some_inj h6)
        (
          record {
            sized = omega (arith, same, (==_iff (length k) 36).0 sized);
            canonical = canonical;
            x = pos_int_range _ _ _ x hx;
            y = pos_int_range _ _ _ y hy;
            z = pos_int_range _ _ _ z hz;
            speed = pos_int_range _ _ _ s hs;
            tol = pos_int_range _ _ _ t ht;
          },
          lower,
        )

  parse_entry-IsEntry :
      (k : CString) (v : json.Value) (e : PosEntry)
      → parse_entry json k v ≡ some e
      → IsEntry e × (e.uuid ≡ map lower_byte k)
  unfolding parse_entry
  parse_entry-IsEntry k v e h =
      parse_members-IsEntry k (json.array_items v) e
        (test_some (json.is_array v && not (ltb (json.array_size v) 5))
          (parse_members json k (json.array_items v)) e h).1

  entry_loop-valid :
      (items : List (CString × json.Value))
      → All IsEntry (entry_loop json items).0
        × (length (entry_loop json items).0 + (entry_loop json items).1 ≡ length items)
  unfolding entry_loop
  entry_loop-valid [] = (tt, refl)
  entry_loop-valid ((k, v) ∷ items) = elim (Option-cases (parse_entry json k v)) [
    | inl bad ↦ rw (bad, entry_loop) (ground (arith, entry_loop-valid items))
    | inr (e, h) ↦
        rw (h, entry_loop)
          (let (kept, count) = entry_loop-valid items in
            (((parse_entry-IsEntry k v e h).0, kept), omega arith))
  ]

  parse_room_epoch_lem :
      (v : Option json.Value) (o : Option ℕ)
      → parse_room_epoch json v ≡ some o
      → if is_some o then or_zero json o ≢ 0 else or_zero json o ≡ 0
  unfolding parse_room_epoch
  parse_room_epoch_lem v none h = refl
  parse_room_epoch_lem none (some e) h = cc
  parse_room_epoch_lem (some v) (some e) h =
      ground (arith, parse_epoch_nonzero (json.string_value v) e)

  -- What a request's fields satisfy before its entries are read.
  abbrev HasFields : PosBatch → Type 0
  HasFields b =
      Between (pos 0) (pos int64_max) b.room
      × Between (pos 1) (pos int64_max) b.seq
      × (if b.has_epoch then b.room_epoch ≢ 0 else b.room_epoch ≡ 0)

  with_fields-HasFields :
      (room seq : ℤ) (full object : json.Value) (epoch : Option ℕ) (mode : Option json.Value)
      (pos_object : json.Value) (b : PosBatch)
      → Between (pos 0) (pos int64_max) room
      → Between (pos 1) (pos int64_max) seq
      → (if is_some epoch then or_zero json epoch ≢ 0 else or_zero json epoch ≡ 0)
      → with_fields json room seq full object epoch mode ≡ some (pos_object, b)
      → HasFields b
  unfolding with_fields
  with_fields-HasFields room seq full object epoch mode pos_object b hroom hseq hepoch h =
      subst HasFields (ap (λ (x : json.Value × PosBatch). x.1) (some_inj (test_some _ _ _ h).1))
        (hroom, hseq, hepoch)

  parse_fields-HasFields :
      (root pos_object : json.Value) (b : PosBatch)
      → parse_fields json root ≡ some (pos_object, b)
      → HasFields b
  unfolding parse_fields
  parse_fields-HasFields root pos_object b h =
      let (room, hroom, h1) =
        bind_some (pos_int json (json.object_get root (codes "room")) (pos 0) (pos int64_max)) _ _
          h in
      let (seq, hseq, h2) =
        bind_some (pos_int json (json.object_get root (codes "seq")) (pos 1) (pos int64_max)) _ _
          h1 in
      let (full, hfull, h3) = bind_some (json.object_get root (codes "full")) _ _ h2 in
      let (object, hobject, h4) = bind_some (json.object_get root (codes "pos")) _ _ h3 in
      let (epoch, hepoch, h5) =
        bind_some (parse_room_epoch json (json.object_get root (codes "room_epoch"))) _ _ h4 in
      with_fields-HasFields room seq full object epoch _ pos_object b
        (pos_int_range _ _ _ room hroom) (pos_int_range _ _ _ seq hseq)
        (parse_room_epoch_lem _ epoch hepoch) h5

  pub record IsRequest (r : Status × PosBatch) : Type 0 where
    pub refused : r.0 ≢ pos_ok → r.1 ≡ zeroed
    pub fields : r.0 ≡ pos_ok → HasFields r.1
    pub bounded : length r.1.entries + r.1.n_skipped ≤ max_entries
    pub entries : All IsEntry r.1.entries

  refused-IsRequest : (st : Status) → st ≢ pos_ok → IsRequest (st, zeroed)
  refused-IsRequest st h = record {
    refused = λ k. refl;
    fields = λ k. absurd (h k);
    bounded = omega arith;
    entries = tt;
  }

  parse_entries-IsRequest :
      (alloc : Bool) (pos_object : json.Value) (out : PosBatch)
      → HasFields out
      → IsRequest (parse_entries json alloc pos_object out)
  unfolding parse_entries
  parse_entries-IsRequest alloc pos_object out h =
      let found = entry_loop-valid (json.object_entries pos_object) in
      elim (Bool-cases (ltb max_entries (json.object_size pos_object))) [
        | inl big ↦ rw big (refused-IsRequest pos_toobig (λ e. cc))
        | inr fits ↦ rw fits (
            choice IsRequest (ltb 0 (json.object_size pos_object) && not alloc) _ _
              (refused-IsRequest pos_malformed (λ e. cc))
              (record {
                refused = λ k. absurd (k refl);
                fields = λ k. h;
                bounded = ground (arith, found.1, fits, json.object_size_lem pos_object);
                entries = found.0;
              }))
      ]

  parse_root-IsRequest : (alloc : Bool) (root : json.Value) → IsRequest (parse_root json alloc root)
  unfolding parse_root
  parse_root-IsRequest alloc root = elim (Option-cases (parse_fields json root)) [
    | inl bad ↦ rw (bad, parse_root) (refused-IsRequest pos_malformed (λ e. cc))
    | inr ((pos_object, out), e) ↦
        rw (e, parse_root)
          (parse_entries-IsRequest alloc pos_object out
            (parse_fields-HasFields root pos_object out e))
  ]

  -- Whatever the bytes, a request that is not accepted leaves the zeroed batch; an accepted one has a room
  -- that is not negative, a sequence number that is positive, an epoch that is not zero or none, and at most
  -- 128 entries, skipped ones included. Each entry that it keeps has a name in the canonical lowercase form
  -- and numbers within the ranges of the header.
  pub posbatch_parse-IsRequest :
      (alloc : Bool) (buf : Option (List ℕ)) → IsRequest (posbatch_parse json alloc buf)
  unfolding posbatch_parse
  posbatch_parse-IsRequest alloc none = refused-IsRequest pos_malformed (λ e. cc)
  posbatch_parse-IsRequest alloc (some buf) =
      choice IsRequest (length buf == 0) _ _ (refused-IsRequest pos_malformed (λ e. cc)) (
        choice IsRequest (ltb max_bytes (length buf)) _ _ (refused-IsRequest pos_toobig (λ e. cc))
          (elim (Option-cases (json.loadb buf)) [
            | inl bad ↦ rw bad (refused-IsRequest pos_malformed (λ e. cc))
            | inr (root, e) ↦ rw e (
                choice IsRequest (json.is_object root) _ _ (parse_root-IsRequest alloc root)
                  (refused-IsRequest pos_malformed (λ e. cc)))
          ]))
