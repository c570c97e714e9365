-- ===== src/Sldata/Parse.antt =====
-- `slv_sldata_parse` of src/sldata.c and its helpers.
use legion_voice_mixer.Prelude.{
  ℕ, Bool, true, not, List, [], ◌∷◌, Option, none, some, CString, codes, length, ltb, ◌==◌, map,
  if◌then◌else◌,
}
use legion_voice_mixer.Prelude.Int.{pos, eqb_ℤ}
use legion_voice_mixer.Json.{Json}
use legion_voice_mixer.Doubles.{Doubles}
use legion_voice_mixer.Sldata.{
  max_bytes, Fields, any_field, Status, data_ok, data_empty, data_malformed, data_toobig, Vec3,
  Quat, PeerAdj, SlData, zeroed,
}
use legion_voice_mixer.Sldata.Peers.{adjust}

module _ (json : Json) (doubles : Doubles) (real_value : json.Value → doubles.Real) where
  -- `slv_get_number`
  unfoldable pub get_number : Option json.Value → Option doubles.Real
  get_number none = none
  get_number (some v) =
      if json.is_real v
      then some (real_value v)
      else if json.is_integer v
      then some (doubles.of_int (json.integer_value v))
      else none

  -- `slv_get_bool`
  unfoldable pub get_bool : Option json.Value → Option Bool
  get_bool none = none
  get_bool (some v) =
      if json.is_boolean v
      then some (json.is_true v)
      else if json.is_integer v
      then some (not (eqb_ℤ (json.integer_value v) (pos 0)))
      else none

  -- The components, each of them a number.
  unfoldable pub get_numbers : List (Option json.Value) → Option (List doubles.Real)
  unfolding get_number
  get_numbers [] = some []
  get_numbers (v ∷ vs) = elim (get_number v) [
    | none ↦ none
    | some d ↦ elim (get_numbers vs) [ none ↦ none | some ds ↦ some (d ∷ ds) ]
  ]

  -- The first members of an array, one for each key.
  unfoldable pub members : List CString → List json.Value → List (Option json.Value)
  members [] items = []
  members (k ∷ ks) [] = none ∷ members ks []
  members (k ∷ ks) (v ∷ items) = some v ∷ members ks items

  -- `slv_get_vecN`, at most four components, in an array or under the keys of an object.
  unfoldable pub get_vec : List CString → Option json.Value → Option (List doubles.Real)
  unfolding get_numbers members
  get_vec keys none = none
  get_vec keys (some v) =
      if json.is_array v
      then if ltb (json.array_size v) (length keys)
        then none
        else get_numbers (members keys (json.array_items v))
      else if json.is_object v
      then get_numbers (map (json.object_get v) keys)
      else none

  abbrev pub xyz : List CString
  xyz = codes "x" ∷ codes "y" ∷ codes "z" ∷ []

  abbrev pub xyzw : List CString
  xyzw = codes "x" ∷ codes "y" ∷ codes "z" ∷ codes "w" ∷ []

  abbrev pub vec_of : Option (List doubles.Real) → Option (Vec3 doubles)
  vec_of (some (x ∷ y ∷ z ∷ [])) = some (record { x = x; y = y; z = z })
  vec_of _ = none

  abbrev pub quat_of : Option (List doubles.Real) → Option (Quat doubles)
  quat_of (some (x ∷ y ∷ z ∷ w ∷ [])) = some (record { x = x; y = y; z = z; w = w })
  quat_of _ = none

  -- A step that writes a field only when its value is there.
  abbrev pub when_some {ℓ} :
      {A : Type ℓ}
      → Option A
      → (A → SlData doubles → SlData doubles)
      → SlData doubles
      → SlData doubles
  when_some none write out = out
  when_some (some a) write out = write a out

  abbrev pub seen : (Fields → Fields) → SlData doubles → SlData doubles
  seen set_bit out = record out { fields_seen = set_bit out.fields_seen }

  abbrev pub saw_m : SlData doubles → SlData doubles
  saw_m = seen (λ f. record f { m = true })

  abbrev pub saw_ug : SlData doubles → SlData doubles
  saw_ug = seen (λ f. record f { ug = true })

  -- The table with one entry changed; a full table drops a new name silently.
  abbrev pub adjusted :
      Option (List (PeerAdj doubles))
      → (SlData doubles → SlData doubles)
      → SlData doubles
      → SlData doubles
  adjusted none saw out = out
  adjusted (some peers) saw out = saw (record out { peers = peers })

  -- The loop over an "m" object.
  unfoldable pub mute_loop : List (CString × json.Value) → SlData doubles → SlData doubles
  unfolding get_bool adjust
  mute_loop [] out = out
  mute_loop ((k, v) ∷ items) out = mute_loop items (
      when_some (get_bool (some v))
        (λ b o.
          adjusted (adjust doubles k (λ p. record p { has_mute = true; muted = b }) o.peers) saw_m
            o)
        out)

  -- The loop over a "ug" object.
  unfoldable pub gain_loop : List (CString × json.Value) → SlData doubles → SlData doubles
  unfolding get_number adjust
  gain_loop [] out = out
  gain_loop ((k, v) ∷ items) out = gain_loop items (
      when_some (get_number (some v))
        (λ g o.
          adjusted (adjust doubles k (λ p. record p { has_gain = true; gain = g }) o.peers) saw_ug
            o)
        out)

  -- "m": an object by target, or the older scalar.
  unfoldable pub parse_mute : Option json.Value → SlData doubles → SlData doubles
  unfolding mute_loop
  parse_mute none out = out
  parse_mute (some v) out =
      if json.is_object v
      then mute_loop (json.object_entries v) out
      else when_some (get_bool (some v)) (λ b o. saw_m (record o { m = b })) out

  -- "ug", likewise.
  unfoldable pub parse_gain : Option json.Value → SlData doubles → SlData doubles
  unfolding gain_loop
  parse_gain none out = out
  parse_gain (some v) out =
      if json.is_object v
      then gain_loop (json.object_entries v) out
      else when_some (get_number (some v)) (λ g o. saw_ug (record o { ug = g })) out

  -- The markers and the geometry, one step for each field.
  unfoldable pub parse_j : json.Value → SlData doubles → SlData doubles
  parse_j root out =
      when_some (json.object_get root (codes "j")) (λ v. seen (λ f. record f { j = true })) out

  unfoldable pub parse_l : json.Value → SlData doubles → SlData doubles
  parse_l root out =
      when_some (json.object_get root (codes "l")) (λ v. seen (λ f. record f { l = true })) out

  unfoldable pub parse_sp : json.Value → SlData doubles → SlData doubles
  unfolding get_vec
  parse_sp root out =
      when_some (vec_of (get_vec xyz (json.object_get root (codes "sp"))))
        (λ v o. seen (λ f. record f { sp = true }) (record o { sp = v })) out

  unfoldable pub parse_sh : json.Value → SlData doubles → SlData doubles
  unfolding get_vec
  parse_sh root out =
      when_some (quat_of (get_vec xyzw (json.object_get root (codes "sh"))))
        (λ v o. seen (λ f. record f { sh = true }) (record o { sh = v })) out

  unfoldable pub parse_lp : json.Value → SlData doubles → SlData doubles
  unfolding get_vec
  parse_lp root out =
      when_some (vec_of (get_vec xyz (json.object_get root (codes "lp"))))
        (λ v o. seen (λ f. record f { lp = true }) (record o { lp = v })) out

  unfoldable pub parse_lh : json.Value → SlData doubles → SlData doubles
  unfolding get_vec
  parse_lh root out =
      when_some (quat_of (get_vec xyzw (json.object_get root (codes "lh"))))
        (λ v o. seen (λ f. record f { lh = true }) (record o { lh = v })) out

  unfoldable pub parse_echo : json.Value → SlData doubles → SlData doubles
  unfolding get_bool
  parse_echo root out =
      when_some (get_bool (json.object_get root (codes "echo")))
        (λ b o. seen (λ f. record f { echo = true }) (record o { echo = b })) out

  unfoldable pub parse_geometry : json.Value → SlData doubles → SlData doubles
  unfolding parse_j parse_l parse_sp parse_sh parse_lp parse_lh
  parse_geometry root out =
      parse_lh root
        (parse_lp root (parse_sh root (parse_sp root (parse_l root (parse_j root out)))))

  unfoldable pub parse_object : json.Value → SlData doubles
  unfolding parse_geometry parse_mute parse_gain parse_echo
  parse_object root = parse_echo root (
      parse_gain (json.object_get root (codes "ug"))
        (parse_mute (json.object_get root (codes "m")) (parse_geometry root (zeroed doubles))))

  abbrev pub with_status : SlData doubles → Status × SlData doubles
  with_status out = (if any_field out.fields_seen then data_ok else data_empty, out)

  unfoldable pub parse_root : Option json.Value → Status × SlData doubles
  unfolding parse_object
  parse_root none = (data_malformed, zeroed doubles)
  parse_root (some root) =
      if json.is_object root
      then with_status (parse_object root)
      else (data_malformed, zeroed doubles)

  -- `slv_sldata_parse`, with `none` for a NULL buffer and `out` not NULL.
  unfoldable pub sldata_parse : Option (List ℕ) → Status × SlData doubles
  unfolding parse_root
  sldata_parse none = (data_malformed, zeroed doubles)
  sldata_parse (some buf) =
      if length buf == 0
      then (data_malformed, zeroed doubles)
      else if ltb max_bytes (length buf)
      then (data_toobig, zeroed doubles)
      else parse_root (json.loadb buf)
