-- ===== src/Sldata/Bounds.antt =====
-- What every message parses to, whatever its bytes.
use legion_voice_mixer.Prelude.{
  ℕ, ◌≤◌, ◌≡◌, ◌≢◌, ◌↔◌, refl, true, List, [], ◌∷◌, Option, none, some, CString, codes, length, ltb,
  ◌==◌, arith, choice, Option-cases, inl, inr,
}
use legion_voice_mixer.Json.{Json}
use legion_voice_mixer.Doubles.{Doubles}
use legion_voice_mixer.Sldata.{
  max_bytes, max_peers, any_field, Status, data_ok, data_malformed, data_toobig, PeerAdj, SlData,
  zeroed,
}
use legion_voice_mixer.Sldata.Peers.{adjust}
use legion_voice_mixer.Sldata.Parse.{
  get_number, get_bool, when_some, saw_m, saw_ug, adjusted, mute_loop, gain_loop, parse_mute,
  parse_gain, parse_j, parse_l, parse_sp, parse_sh, parse_lp, parse_lh, parse_echo, parse_geometry,
  parse_object, with_status, parse_root, sldata_parse,
}
use legion_voice_mixer.Sldata.Adjusted.{KeepsName, adjust_lem}

module _ (json : Json) (doubles : Doubles) (real_value : json.Value → doubles.Real) where
  pub record IsBounded (out : SlData doubles) : Type 0 where
    pub within : length out.peers ≤ max_peers

  when_some-IsBounded {ℓ} :
      {A : Type ℓ} (o : Option A) (write : A → SlData doubles → SlData doubles)
      (out : SlData doubles)
      → ((a : A) → IsBounded (write a out))
      → IsBounded out
      → IsBounded (when_some json doubles real_value o write out)
  when_some-IsBounded none write out k h = h
  when_some-IsBounded (some a) write out k h = k a

  adjusted-IsBounded :
      (u : CString) (change : PeerAdj doubles → PeerAdj doubles)
      (saw : SlData doubles → SlData doubles) (out : SlData doubles)
      → KeepsName doubles change
      → ((o : SlData doubles) → IsBounded o → IsBounded (saw o))
      → IsBounded out
      → IsBounded (adjusted json doubles real_value (adjust doubles u change out.peers) saw out)
  adjusted-IsBounded u change saw out keeps k h =
      elim (Option-cases (adjust doubles u change out.peers)) [
        | inl full ↦ rw full h
        | inr (ps, e) ↦ rw e (
            k (record out { peers = ps })
              (record {
                within = ((adjust_lem doubles u change keeps out.peers h.within).1 ps e).0;
              }))
      ]

  mute_loop-IsBounded :
      (items : List (CString × json.Value)) (out : SlData doubles)
      → IsBounded out
      → IsBounded (mute_loop json doubles real_value items out)
  unfolding mute_loop
  mute_loop-IsBounded [] out h = h
  mute_loop-IsBounded ((k, v) ∷ items) out h = mute_loop-IsBounded items _ (
      when_some-IsBounded (get_bool json doubles real_value (some v)) _ out
        (λ b.
          adjusted-IsBounded k (λ p. record p { has_mute = true; muted = b })
            (saw_m json doubles real_value) out (λ p. refl) (λ o l. record { within = l.within }) h)
        h)

  gain_loop-IsBounded :
      (items : List (CString × json.Value)) (out : SlData doubles)
      → IsBounded out
      → IsBounded (gain_loop json doubles real_value items out)
  unfolding gain_loop
  gain_loop-IsBounded [] out h = h
  gain_loop-IsBounded ((k, v) ∷ items) out h = gain_loop-IsBounded items _ (
      when_some-IsBounded (get_number json doubles real_value (some v)) _ out
        (λ g.
          adjusted-IsBounded k (λ p. record p { has_gain = true; gain = g })
            (saw_ug json doubles real_value) out (λ p. refl) (λ o l. record { within = l.within })
            h)
        h)

  peers-parse_j :
      (root : json.Value) (out : SlData doubles)
      → (parse_j json doubles real_value root out).peers ≡ out.peers
  unfolding parse_j
  peers-parse_j root out = ground arith

  peers-parse_l :
      (root : json.Value) (out : SlData doubles)
      → (parse_l json doubles real_value root out).peers ≡ out.peers
  unfolding parse_l
  peers-parse_l root out = ground arith

  peers-parse_sp :
      (root : json.Value) (out : SlData doubles)
      → (parse_sp json doubles real_value root out).peers ≡ out.peers
  unfolding parse_sp
  peers-parse_sp root out = ground arith

  peers-parse_sh :
      (root : json.Value) (out : SlData doubles)
      → (parse_sh json doubles real_value root out).peers ≡ out.peers
  unfolding parse_sh
  peers-parse_sh root out = ground arith

  peers-parse_lp :
      (root : json.Value) (out : SlData doubles)
      → (parse_lp json doubles real_value root out).peers ≡ out.peers
  unfolding parse_lp
  peers-parse_lp root out = ground arith

  peers-parse_lh :
      (root : json.Value) (out : SlData doubles)
      → (parse_lh json doubles real_value root out).peers ≡ out.peers
  unfolding parse_lh
  peers-parse_lh root out = ground arith

  peers-parse_echo :
      (root : json.Value) (out : SlData doubles)
      → (parse_echo json doubles real_value root out).peers ≡ out.peers
  unfolding parse_echo
  peers-parse_echo root out = ground arith

  parse_geometry-IsBounded :
      (root : json.Value) (out : SlData doubles)
      → IsBounded out
      → IsBounded (parse_geometry json doubles real_value root out)
  unfolding parse_geometry
  parse_geometry-IsBounded root out h = record {
    within =
        rw
          (
            peers-parse_lh, peers-parse_lp, peers-parse_sh, peers-parse_sp, peers-parse_l,
            peers-parse_j,
          )
          h.within;
  }

  parse_mute-IsBounded :
      (v : Option json.Value) (out : SlData doubles)
      → IsBounded out
      → IsBounded (parse_mute json doubles real_value v out)
  unfolding parse_mute
  parse_mute-IsBounded none out h = h
  parse_mute-IsBounded (some v) out h =
      choice IsBounded (json.is_object v) _ _ (mute_loop-IsBounded (json.object_entries v) out h) (
        when_some-IsBounded (get_bool json doubles real_value (some v)) _ out
          (λ b. record { within = h.within }) h)

  parse_gain-IsBounded :
      (v : Option json.Value) (out : SlData doubles)
      → IsBounded out
      → IsBounded (parse_gain json doubles real_value v out)
  unfolding parse_gain
  parse_gain-IsBounded none out h = h
  parse_gain-IsBounded (some v) out h =
      choice IsBounded (json.is_object v) _ _ (gain_loop-IsBounded (json.object_entries v) out h) (
        when_some-IsBounded (get_number json doubles real_value (some v)) _ out
          (λ g. record { within = h.within }) h)

  parse_object-IsBounded :
      (root : json.Value) → IsBounded (parse_object json doubles real_value root)
  unfolding parse_object
  parse_object-IsBounded root =
      let h = parse_gain-IsBounded (json.object_get root (codes "ug")) _ (
        parse_mute-IsBounded (json.object_get root (codes "m")) _
          (parse_geometry-IsBounded root (zeroed doubles) (record { within = omega arith }))) in
      record { within = rw peers-parse_echo h.within }

  abbrev pub IsMessage : Status × SlData doubles → Type 0
  IsMessage r = ((r.0 ≡ data_ok) ↔ (any_field r.1.fields_seen ≡ true)) × IsBounded r.1

  with_status-IsMessage :
      (out : SlData doubles) → IsBounded out → IsMessage (with_status json doubles real_value out)
  with_status-IsMessage out h = (ground arith, h)

  refused-IsMessage : (st : Status) → st ≢ data_ok → IsMessage (st, zeroed doubles)
  refused-IsMessage st d = ((λ e. absurd (d e), λ e. cc), record { within = omega arith })

  parse_root-IsMessage :
      (root : Option json.Value) → IsMessage (parse_root json doubles real_value root)
  unfolding parse_root
  parse_root-IsMessage none = refused-IsMessage data_malformed (λ e. cc)
  parse_root-IsMessage (some root) =
      choice IsMessage (json.is_object root) _ _
        (with_status-IsMessage _ (parse_object-IsBounded root))
        (refused-IsMessage data_malformed (λ e. cc))

  -- Whatever the bytes, the status is "ok" exactly when the message carried a field of the right type, so a
  -- refused message carries none, and it adjusts at most 32 targets.
  pub sldata_parse-IsMessage :
      (buf : Option (List ℕ)) → IsMessage (sldata_parse json doubles real_value buf)
  unfolding sldata_parse
  sldata_parse-IsMessage none = refused-IsMessage data_malformed (λ e. cc)
  sldata_parse-IsMessage (some buf) =
      choice IsMessage (length buf == 0) _ _ (refused-IsMessage data_malformed (λ e. cc)) (
        choice IsMessage (ltb max_bytes (length buf)) _ _ (refused-IsMessage data_toobig (λ e. cc))
          (parse_root-IsMessage (json.loadb buf)))
