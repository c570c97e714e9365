-- ===== src/Tests/Batches.antt =====
-- The parser of src/visbatch.c at a document.
use legion_voice_mixer.Prelude.{
  ℕ, ◌+◌, ◌≡◌, refl, true, List, [], ◌∷◌, Option, some, codes, length, map, total, str_eq,
}
use legion_voice_mixer.Prelude.Int.{pos}
use legion_voice_mixer.Hex.{parse_epoch, hex_loop, hex_digit, push_digit, nonzero}
use legion_voice_mixer.Columns.{op_remove, uuid_copy}
use legion_voice_mixer.Visbatch.{
  batch_ok, visbatch_parse, parse_root, parse_batch, parse_rest, parse_objects, parse_base,
  base_loop, parse_op, parse_stamp, parse_generation, parse_room_epoch, in_uint32, unwrap,
}
use legion_voice_mixer.Visbatch.Rows.{
  uuid_ok, ChannelAllocs, Allocs, source_loop, listener_loop, parse_channel,
}
use legion_voice_mixer.Visbatch.Reference.{entry_of, listeners, left_out, parse_channel_lem}
use legion_voice_mixer.Visbatch.Limits.{IsWithin, visbatch_parse-IsWithin}
use legion_voice_mixer.Tests.Documents.{
  Document, text, number, array, object, item_end, item, field_end, field, holding,
}

abbrev excl : Document
excl = object (
    field (codes "alice") (array (item (text (codes "bob")) (item (number (pos 7)) item_end))) (
      field (codes "carol") (text (codes "not an array"))
        (field (codes "dave") (array item_end) field_end)))

abbrev batch : Document
batch = object (
    field (codes "op") (text (codes "remove")) (
      field (codes "room") (number (pos 42)) (
        field (codes "room_epoch") (text (codes "00000000000000a1")) (
          field (codes "policy_generation") (number (pos 3)) (
            field (codes "excl") excl (
              field (codes "base") (object (field (codes "alice") (number (pos 2)) field_end))
                field_end))))))

abbrev channel_allocs : ChannelAllocs
channel_allocs = record { rows = true; sources = λ k. true }

abbrev allocs : Allocs
allocs = record { excl = channel_allocs; mute = channel_allocs; base = true }

abbrev some_bytes : Option (List ℕ)
some_bytes = some (1 ∷ [])

parsed : visbatch_parse (holding batch) allocs some_bytes ≡ (
  batch_ok,
  record {
    op = op_remove;
    room = pos 42;
    entries =
        record { listener = codes "alice"; excl = codes "bob" ∷ [] }
        ∷ record { listener = codes "dave"; excl = [] }
        ∷ [];
    mute_entries = [];
    n_skipped = 2;
    has_epoch = true;
    room_epoch = 161;
    policy_generation = 3;
    base = record { listener = codes "alice"; gen = pos 2 } ∷ [];
  },
)
unfolding visbatch_parse parse_root parse_batch parse_rest parse_objects parse_base base_loop
    parse_op parse_stamp parse_generation parse_room_epoch in_uint32 unwrap uuid_ok source_loop
    listener_loop parse_channel parse_epoch hex_loop hex_digit push_digit nonzero uuid_copy str_eq
parsed = refl

visbatch_parse-IsWithin_example : IsWithin (visbatch_parse (holding batch) allocs some_bytes).1
visbatch_parse-IsWithin_example = visbatch_parse-IsWithin (holding batch) allocs some_bytes

parse_channel_lem_example :
    ((parse_channel (holding excl) channel_allocs (some excl)).entries
      ≡ map
          (entry_of (holding excl))
          (listeners (holding excl) (λ k. true) ((holding excl).object_entries excl)))
    × (length (listeners (holding excl) (λ k. true) ((holding excl).object_entries excl))
          + (parse_channel (holding excl) channel_allocs (some excl)).n_skipped
        ≡ length ((holding excl).object_entries excl)
          + total (
              map
                (left_out (holding excl))
                (listeners (holding excl) (λ k. true) ((holding excl).object_entries excl))))
parse_channel_lem_example = parse_channel_lem (holding excl) channel_allocs excl refl refl
