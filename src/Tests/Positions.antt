-- ===== src/Tests/Positions.antt =====
-- Requests of positions: a run of the parser and of the handler, and the properties at them.
use legion_voice_mixer.Prelude.{
  ℕ, ◌≡◌, ◌<◌, refl, true, false, [], ◌∷◌, some, codes, str_eq, arith, if◌then◌else◌,
}
use legion_voice_mixer.Prelude.Int.{pos, negsuc, ◌-ℤ◌}
use legion_voice_mixer.Doubles.{Doubles}
use legion_voice_mixer.Authority.{authority_stale}
use legion_voice_mixer.Positions.{slots, PosEntry, PosBatch, pos_ok}
use legion_voice_mixer.Positions.Parse.{
  posbatch_parse, parse_root, parse_entries, parse_fields, with_fields, parse_room_epoch,
  entry_loop, parse_entry, parse_members, pos_int, uuid_canon, canon_loop, canon_byte,
}
use legion_voice_mixer.Positions.Store.{
  cleared, probe, probe_from, place, stops, pos_hash, hash_from, store_at, apply_entry,
  apply_entries, store_apply, store_find, lower_byte,
}
use legion_voice_mixer.Positions.Bounds.{IsRequest, posbatch_parse-IsRequest}
use legion_voice_mixer.Positions.Invariant.{IsValid, probe_ends, cleared-IsValid}
use legion_voice_mixer.Positions.Probe.{slot}
use legion_voice_mixer.Positions.Lookup.{point}
use legion_voice_mixer.Positions.Applied.{learn_all, known, start, store_apply-learn_all}
use legion_voice_mixer.Positions.Handle.{RequestStats, PosRoom, refusal, handle_parsed}
use legion_voice_mixer.Positions.Sequence.{
  handle_all, is_accepted, known_before, handle_parsed-points, handle_parsed_once,
}
use legion_voice_mixer.Positions.Observe.{age_of, PartStats, RoomTicks, sim_none, no_entry, observe}
use legion_voice_mixer.Positions.Totals.{Counts, observe-Counts}
use legion_voice_mixer.Tests.Documents.{
  Document, number, boolean, array, object, item_end, item, field_end, field, holding,
}

abbrev five : Document
five = array (
    item (number (pos 100)) (
      item (number (negsuc 4))
        (item (number (pos 30)) (item (number (pos 7)) (item (number (pos 9)) item_end)))))

abbrev request : Document
request = object (
    field (codes "room") (number (pos 42)) (
      field (codes "seq") (number (pos 8)) (
        field (codes "full") (boolean true) (
          field (codes "pos")
            (object (
              field (codes "0011AABB-0000-0000-0000-00000000000F") five
                (field (codes "short") five field_end)))
            field_end))))

abbrev entry : PosEntry
entry = record {
  uuid = codes "0011aabb-0000-0000-0000-00000000000f";
  x = pos 100;
  y = negsuc 4;
  z = pos 30;
  speed_cms = pos 7;
  tol_cm = pos 9;
}

abbrev pos_batch : PosBatch
pos_batch = record {
  room = pos 42;
  seq = pos 8;
  full = true;
  enforce_requested = false;
  has_epoch = false;
  room_epoch = 0;
  entries = entry ∷ [];
  n_skipped = 1;
}

parsed : posbatch_parse (holding request) true (some (1 ∷ [])) ≡ (pos_ok, pos_batch)
unfolding posbatch_parse parse_root parse_entries parse_fields with_fields parse_room_epoch
    entry_loop parse_entry parse_members pos_int uuid_canon canon_loop canon_byte str_eq ◌-ℤ◌
parsed = refl

found :
    store_find
      (store_apply cleared pos_batch (pos 5)).store
      (codes "0011AABB-0000-0000-0000-00000000000f")
    ≡ some (record { e = entry; recv_us = pos 5 })
unfolding store_find store_apply apply_entries apply_entry store_at probe probe_from place stops
    pos_hash hash_from lower_byte cleared str_eq
found = refl

posbatch_parse-IsRequest_example :
    IsRequest (holding request) (posbatch_parse (holding request) true (some (1 ∷ [])))
posbatch_parse-IsRequest_example = posbatch_parse-IsRequest (holding request) true (some (1 ∷ []))

probe_ends_example :
    (j : ℕ) × (probe cleared.slot entry.uuid ≡ some j)
    × (stops entry.uuid (slot cleared.slot j) ≡ true)
    × (j < slots)
probe_ends_example = probe_ends cleared entry.uuid cleared-IsValid

store_apply-learn_all_example :
    IsValid (store_apply cleared pos_batch (pos 5)).store
    × (known (store_apply cleared pos_batch (pos 5))
        ≡ learn_all pos_batch.entries (pos 5) (start cleared pos_batch))
store_apply-learn_all_example = store_apply-learn_all cleared pos_batch (pos 5) cleared-IsValid

abbrev new_stats : RequestStats
new_stats = record {
  have_batch = false;
  last_seq = pos 0;
  last_us = pos 0;
  epoch = 0;
  batches = 0;
  full_batches = 0;
  entries_applied = 0;
  entries_skipped = 0;
  entries_dropped_full = 0;
  rejected_stale_epoch = 0;
  rejected_stale_seq = 0;
  enforce_requests = 0;
}

abbrev new_room : PosRoom
new_room = record {
  pos_store = cleared;
  pos_stats = new_stats;
  vis_auth_epoch = 0;
  vis_auth_last_us = pos 0;
}

accepted : is_accepted (pos 9) pos_batch (pos 5) new_room ≡ true
unfolding handle_parsed refusal authority_stale ◌-ℤ◌
accepted = refl

handle_parsed_once_example :
    is_accepted (pos 9) pos_batch (pos 7) (
      handle_all
        (pos 9)
        ((pos_batch, pos 6) ∷ [])
        (handle_parsed (pos 9) pos_batch (pos 5) new_room).1)
    ≡ false
handle_parsed_once_example =
    handle_parsed_once (pos 9) pos_batch pos_batch (pos 5) (pos 7) ((pos_batch, pos 6) ∷ [])
      new_room accepted (refl, tt) refl (omega arith)

-- The room after the request, and a request of another instance.
abbrev second_room : PosRoom
second_room = (handle_parsed (pos 9) pos_batch (pos 5) new_room).1

abbrev other_batch : PosBatch
other_batch = record pos_batch { has_epoch = true; room_epoch = 77 }

second_room-IsValid : IsValid second_room.pos_store
second_room-IsValid =
    (handle_parsed-points (pos 9) pos_batch (pos 5) new_room entry.uuid cleared-IsValid).0

handle_parsed-points_example :
    IsValid (handle_parsed (pos 9) other_batch (pos 6) second_room).1.pos_store
    × (point (handle_parsed (pos 9) other_batch (pos 6) second_room).1.pos_store entry.uuid ≡ (
        if is_accepted (pos 9) other_batch (pos 6) second_room
        then (learn_all other_batch.entries (pos 6) (known_before other_batch second_room)).find
            entry.uuid
        else point second_room.pos_store entry.uuid))
handle_parsed-points_example =
    handle_parsed-points (pos 9) other_batch (pos 6) second_room entry.uuid second_room-IsValid

-- Whole numbers stand for the doubles.
abbrev pub whole : Doubles
whole = record {
  Real = ℕ;
  of_int = λ i. elim i [ pos n ↦ n | negsuc n ↦ 0 ];
  add = λ a b. a;
  sub = λ a b. a;
  mul = λ a b. a;
  div = λ a b. a;
  sqrt = λ a. a;
  lt = λ a b. true;
  is_nan = λ a. false;
}

abbrev ticks : RoomTicks whole
ticks = record {
  would_clamp_ticks = 0;
  would_use_sim_ticks = 0;
  no_sim_ticks = 0;
  no_sim_stale_ticks = 0;
  max_dev_cm = 0;
  max_excess_cm = 0;
  would_clamp_now = 0;
  would_use_sim_now = 0;
  no_sim_now = 0;
}

abbrev part : PartStats whole
part = record {
  state = sim_none;
  age_ms = pos 0;
  sim = no_entry;
  dev_cm = 0;
  ticks_observed = 0;
  would_clamp = 0;
  max_dev_cm = 0;
  max_excess_cm = 0;
  would_use_sim = 0;
  no_sim = 0;
  no_sim_stale = 0;
}

observe-Counts_example : Counts whole true false false false true part ticks (
    observe whole part ticks
      (some (record { e = entry; recv_us = pos 5 }))
      (pos 8)
      true
      true
      (1, 2, 3))
unfolding age_of ◌-ℤ◌
observe-Counts_example =
    observe-Counts whole part ticks (some (record { e = entry; recv_us = pos 5 })) (pos 8) true true
      (1, 2, 3)
