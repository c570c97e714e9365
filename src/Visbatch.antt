-- ===== src/Visbatch.antt =====
-- The parser of a visibility batch, src/visbatch.c, over Jansson's values. The struct that it fills is
-- `VisBatch`; the arrays that `calloc` gives are lists, and each `calloc` may fail.
pub mod Rows
pub mod Reference
pub mod Outcomes
pub mod Limits
use legion_voice_mixer.Prelude.{
  ℕ, ◌+◌, ◌*◌, ◌^◌, ◌-◌, Bool, true, false, not, ◌&&◌, ◌||◌, List, [], ◌∷◌, Option, none, some,
  CString, codes, length, leb, ltb, ◌==◌, str_eq, if◌then◌else◌,
}
use legion_voice_mixer.Prelude.Int.{ℤ, pos, pos_part, ltb_ℤ}
use legion_voice_mixer.Json.{Json, holds}
use legion_voice_mixer.Hex.{parse_epoch}
use legion_voice_mixer.Columns.{VisOp, op_add, op_remove, op_replace, uuid_copy}
use legion_voice_mixer.Visibility.{VisEntry, VisBase, VisBatch}
use legion_voice_mixer.Visbatch.Rows.{max_entries, uuid_ok, Allocs, Channel, parse_channel}

-- SLV_VISBATCH_MAX_BYTES
abbrev pub max_bytes : ℕ
max_bytes = 65536

-- UINT32_MAX
abbrev pub uint32_max : ℕ
uint32_max = 2 ^ 32 - 1

-- `slv_visbatch_status`
pub data Status : Type 0 where
  batch_ok batch_empty batch_malformed batch_toobig : Status

-- The struct after its `memset`.
abbrev pub zeroed : VisBatch
zeroed = record {
  op = op_add;
  room = pos 0;
  entries = [];
  mute_entries = [];
  n_skipped = 0;
  has_epoch = false;
  room_epoch = 0;
  policy_generation = 0;
  base = [];
}

unfoldable pub parse_op : CString → Option VisOp
parse_op s =
    if str_eq s (codes "add")
    then some op_add
    else if str_eq s (codes "remove")
    then some op_remove
    else if str_eq s (codes "replace")
    then some op_replace
    else none

-- An integer from `lo` to 2^32 - 1.
unfoldable pub in_uint32 : ℕ → ℤ → Bool
in_uint32 lo i = not (ltb_ℤ i (pos lo) || ltb_ℤ (pos uint32_max) i)

module _ (json : Json) where
  -- The loop over the items of "base", after `n` of them are kept: what it keeps, and how many it skips.
  unfoldable pub base_loop : List (CString × json.Value) → ℕ → List VisBase × ℕ
  unfolding in_uint32 uuid_ok uuid_copy
  base_loop [] n = ([], 0)
  base_loop ((k, v) ∷ items) n =
      let kept = base_loop items (n + 1) in
      let skipped = base_loop items n in
      if leb (max_entries * 2) n
        || not (uuid_ok k)
        || not (json.is_integer v)
        || not (in_uint32 0 (json.integer_value v))
      then (skipped.0, skipped.1 + 1)
      else (record { listener = uuid_copy k; gen = json.integer_value v } ∷ kept.0, kept.1)

  -- `base`, which counts only with an epoch. `alloc` is whether its `calloc` succeeds.
  unfoldable pub parse_base : Bool → Bool → Option json.Value → List VisBase × ℕ
  unfolding base_loop
  parse_base alloc has_epoch none = ([], 0)
  parse_base alloc has_epoch (some v) =
      let items = base_loop (json.object_entries v) 0 in
      if has_epoch && (json.is_object v && (ltb 0 (json.object_size v) && alloc))
      then items
      else ([], 0)

  -- `policy_generation`, from 1 to 2^32 - 1.
  unfoldable pub parse_generation : Option json.Value → Option ℕ
  unfolding in_uint32
  parse_generation none = none
  parse_generation (some v) =
      if json.is_integer v && in_uint32 1 (json.integer_value v)
      then some (pos_part (json.integer_value v))
      else none

  -- `room_epoch`, a string of 16 hexadecimal digits that is not zero.
  unfoldable pub parse_room_epoch : json.Value → Option ℕ
  unfolding parse_epoch
  parse_room_epoch v = if json.is_string v then parse_epoch (json.string_value v) else none

  -- The stamp: `none` when it is malformed, `some none` when there is none.
  unfoldable pub parse_stamp : json.Value → Option (Option (ℕ × ℕ))
  unfolding parse_generation parse_room_epoch
  parse_stamp b = elim (json.object_get b (codes "room_epoch")) [
    | none ↦ some none
    | some jepoch ↦ elim (parse_room_epoch jepoch) [
      | none ↦ none
      | some epoch ↦ elim (parse_generation (json.object_get b (codes "policy_generation"))) [
        | none ↦ none
        | some gen ↦ some (some (epoch, gen))
      ]
    ]
  ]

  abbrev pub stamped : Option (ℕ × ℕ) → VisBatch → VisBatch
  stamped none out = out
  stamped (some (epoch, gen)) out = record out {
    has_epoch = true;
    room_epoch = epoch;
    policy_generation = gen;
  }

  -- The three objects of a batch whose stamp is read, and the status.
  unfoldable pub parse_objects : Allocs → json.Value → VisBatch → Status × VisBatch
  unfolding parse_channel parse_base
  parse_objects allocs b out =
      let excl = parse_channel json allocs.excl (json.object_get b (codes "excl")) in
      let mute = parse_channel json allocs.mute (json.object_get b (codes "mute")) in
      let base = parse_base allocs.base out.has_epoch (json.object_get b (codes "base")) in
      (
        if ltb 0 (length excl.entries) || ltb 0 (length mute.entries)
            then batch_ok
            else batch_empty,
        record out {
          entries = excl.entries;
          mute_entries = mute.entries;
          base = base.0;
          n_skipped = out.n_skipped + excl.n_skipped + mute.n_skipped + base.1;
        },
      )

  -- The batch object after its operation is read: its room, its stamp and its objects.
  unfoldable pub parse_rest : Allocs → json.Value → VisBatch → Status × VisBatch
  unfolding parse_stamp parse_objects
  parse_rest allocs b out = elim (json.object_get b (codes "room")) [
    | none ↦ (batch_malformed, out)
    | some jroom ↦
        if json.is_integer jroom
        then elim (parse_stamp b) [
          | none ↦ (batch_malformed, zeroed)
          | some stamp ↦
              parse_objects allocs b
                (stamped stamp (record out { room = json.integer_value jroom }))
        ]
        else (batch_malformed, out)
  ]

  unfoldable pub parse_batch : Allocs → json.Value → Status × VisBatch
  unfolding parse_rest parse_op
  parse_batch allocs b = elim (json.object_get b (codes "op")) [
    | none ↦ (batch_malformed, zeroed)
    | some jop ↦
        if json.is_string jop
        then elim (parse_op (json.string_value jop)) [
          | none ↦ (batch_malformed, zeroed)
          | some op ↦ parse_rest allocs b (record zeroed { op = op })
        ]
        else (batch_malformed, zeroed)
  ]

  -- The batch at top level, or the object "slvoice_vis" that wraps it.
  unfoldable pub unwrap : json.Value → json.Value
  unwrap root = elim (json.object_get root (codes "slvoice_vis")) [
    | none ↦ root
    | some b ↦ if json.is_object b then b else root
  ]

  unfoldable pub parse_root : Allocs → Option json.Value → Status × VisBatch
  unfolding parse_batch unwrap
  parse_root allocs none = (batch_malformed, zeroed)
  parse_root allocs (some root) =
      if json.is_object root then parse_batch allocs (unwrap root) else (batch_malformed, zeroed)

  -- `slv_visbatch_parse`, with `none` for a NULL buffer and `out` not NULL.
  unfoldable pub visbatch_parse : Allocs → Option (List ℕ) → Status × VisBatch
  unfolding parse_root
  visbatch_parse allocs none = (batch_malformed, zeroed)
  visbatch_parse allocs (some buf) =
      if length buf == 0
      then (batch_malformed, zeroed)
      else if ltb max_bytes (length buf)
      then (batch_toobig, zeroed)
      else parse_root allocs (json.loadb buf)
