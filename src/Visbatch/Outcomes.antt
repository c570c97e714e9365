-- ===== src/Visbatch/Outcomes.antt =====
-- The ways in which the parse of a batch ends, and what its status says.
use legion_voice_mixer.Prelude.{
  ℕ, ◌+◌, ◌<◌, ◌≡◌, ◌↔◌, List, Option, none, some, codes, length, ltb, ◌==◌, arith, choice,
  Option-cases, inl, inr,
}
use legion_voice_mixer.Prelude.Int.{ℤ}
use legion_voice_mixer.Json.{Json}
use legion_voice_mixer.Columns.{VisOp}
use legion_voice_mixer.Visibility.{VisBatch}
use legion_voice_mixer.Visbatch.{
  max_bytes, Status, batch_ok, batch_malformed, batch_toobig, zeroed, parse_op, parse_stamp,
  stamped, parse_objects, parse_rest, parse_batch, unwrap, parse_root, visbatch_parse,
}
use legion_voice_mixer.Visbatch.Rows.{Allocs}

module _ (json : Json) (allocs : Allocs) (P : Status × VisBatch → Type 0)
    (malformed : (op : VisOp) → P (batch_malformed, record zeroed { op = op }))
    (toobig : P (batch_toobig, zeroed))
    (objects : (b : json.Value) (op : VisOp) (room : ℤ) (stamp : Option (ℕ × ℕ))
      → parse_stamp json b ≡ some stamp
      → P (
          parse_objects json allocs b
            (stamped json stamp (record zeroed { op = op; room = room })))) where
  rest_outcomes :
      (b : json.Value) (op : VisOp) → P (parse_rest json allocs b (record zeroed { op = op }))
  unfolding parse_rest
  rest_outcomes b op = elim (Option-cases (json.object_get b (codes "room"))) [
    | inl none_room ↦ rw (none_room, parse_rest) (malformed op)
    | inr (jroom, e) ↦
        rw (e, parse_rest)
          (choice P (json.is_integer jroom) _ _
            (elim (Option-cases (parse_stamp json b)) [
              | inl bad ↦ rw bad (malformed zeroed.op)
              | inr (stamp, k) ↦ rw k (objects b op (json.integer_value jroom) stamp k)
            ])
            (malformed op))
  ]

  batch_outcomes : (b : json.Value) → P (parse_batch json allocs b)
  unfolding parse_batch
  batch_outcomes b = elim (Option-cases (json.object_get b (codes "op"))) [
    | inl none_op ↦ rw (none_op, parse_batch) (malformed zeroed.op)
    | inr (jop, e) ↦
        rw (e, parse_batch)
          (choice P (json.is_string jop) _ _
            (elim (Option-cases (parse_op (json.string_value jop))) [
              | inl bad ↦ rw bad (malformed zeroed.op)
              | inr (op, k) ↦ rw k (rest_outcomes b op)
            ])
            (malformed zeroed.op))
  ]

  root_outcomes : (root : Option json.Value) → P (parse_root json allocs root)
  unfolding parse_root
  root_outcomes none = malformed zeroed.op
  root_outcomes (some root) =
      choice P (json.is_object root) _ _ (batch_outcomes (unwrap json root)) (malformed zeroed.op)

  pub outcomes : (buf : Option (List ℕ)) → P (visbatch_parse json allocs buf)
  unfolding visbatch_parse
  outcomes none = malformed zeroed.op
  outcomes (some buf) =
      choice P (length buf == 0) _ _ (malformed zeroed.op)
        (choice P (ltb max_bytes (length buf)) _ _ toobig (root_outcomes (json.loadb buf)))

abbrev pub applicable : VisBatch → ℕ
applicable b = length b.entries + length b.mute_entries

module _ (json : Json) (allocs : Allocs) where
  parse_objects_status :
      (b : json.Value) (out : VisBatch)
      → ((parse_objects json allocs b out).0 ≡ batch_ok)
        ↔ (0 < applicable (parse_objects json allocs b out).1)
  unfolding parse_objects
  parse_objects_status b out = ground arith

  -- The status is "ok" exactly when the batch that the parser leaves names a listener in either channel, so
  -- a malformed, empty or oversized payload leaves nothing to apply.
  pub visbatch_parse-ok_iff :
      (buf : Option (List ℕ))
      → ((visbatch_parse json allocs buf).0 ≡ batch_ok)
        ↔ (0 < applicable (visbatch_parse json allocs buf).1)
  visbatch_parse-ok_iff buf =
      outcomes json allocs (λ r. (r.0 ≡ batch_ok) ↔ (0 < applicable r.1)) (λ op. ground arith)
        (ground arith) (λ b op room stamp e. parse_objects_status b _) buf
