-- ===== src/Visbatch/Limits.antt =====
-- The limits that every parsed batch keeps, whatever the bytes, which are what the rest of the plugin
-- relies on of it.
use legion_voice_mixer.Prelude.{
  ℕ, ◌+◌, ◌*◌, ◌≤◌, ◌<◌, ◌≡◌, ◌≢◌, refl, Bool, true, false, List, [], ◌∷◌, Option, none, some,
  CString, codes, length, arith, if◌then◌else◌, Option-cases, inl, inr, All, uuid_len,
}
use legion_voice_mixer.Prelude.Int.{pos, ◌≤ℤ◌}
use legion_voice_mixer.Json.{Json}
use legion_voice_mixer.Hex.Laws.{parse_epoch_nonzero}
use legion_voice_mixer.Columns.{VisOp, op_add}
use legion_voice_mixer.Visibility.{VisEntry, VisBase, VisBatch}
use legion_voice_mixer.Visbatch.{
  uint32_max, Status, zeroed, in_uint32, base_loop, parse_base, parse_generation, parse_room_epoch,
  parse_stamp, stamped, parse_objects, visbatch_parse,
}
use legion_voice_mixer.Visbatch.Rows.{
  max_entries, max_excl, uuid_ok, ChannelAllocs, Allocs, source_loop, listener_loop, parse_channel,
}
use legion_voice_mixer.Visbatch.Outcomes.{outcomes}
use legion_voice_mixer.Visbatch.Reference.{uuid_copy-uuid_ok}

-- A name that is stored whole in its buffer.
abbrev pub IsName : CString → Type 0
IsName s = (0 < length s) × (length s < uuid_len)

abbrev pub IsEntry : VisEntry → Type 0
IsEntry e = IsName e.listener × (length e.excl ≤ max_excl) × All IsName e.excl

abbrev pub IsBase : VisBase → Type 0
IsBase b = IsName b.listener × (pos 0 ≤ℤ b.gen) × (b.gen ≤ℤ pos uint32_max)

-- A stamp is either absent, with its fields zero, or an epoch that is not zero and a generation.
abbrev pub IsStamp : VisBatch → Type 0
IsStamp b =
    if b.has_epoch
    then (b.room_epoch ≢ 0) × (1 ≤ b.policy_generation) × (b.policy_generation ≤ uint32_max)
    else (b.room_epoch ≡ 0) × (b.policy_generation ≡ 0) × (b.base ≡ [])

pub record IsWithin (b : VisBatch) : Type 0 where
  pub entries_bounded : length b.entries ≤ max_entries
  pub entries_named : All IsEntry b.entries
  pub mutes_bounded : length b.mute_entries ≤ max_entries
  pub mutes_named : All IsEntry b.mute_entries
  pub base_bounded : length b.base ≤ max_entries * 2
  pub base_named : All IsBase b.base
  pub stamp : IsStamp b

abbrev LeavesWithin : Status × VisBatch → Type 0
LeavesWithin r = IsWithin r.1

uuid_copy-IsName : (s : CString) → uuid_ok s ≡ true → IsName s
unfolding uuid_ok
uuid_copy-IsName s h = ground arith

module _ (json : Json) where
  source_loop-within :
      (items : List json.Value) (n : ℕ)
      → n ≤ max_excl
      → (n + length (source_loop json items n).0 ≤ max_excl)
        × All IsName (source_loop json items n).0
  unfolding source_loop
  source_loop-within [] n h = (omega arith, tt)
  source_loop-within (v ∷ items) n h = ground (
    arith,
    source_loop-within items n h,
    λ (k : n < max_excl). source_loop-within items (n + 1) (omega arith),
    uuid_copy-uuid_ok (json.string_value v),
    uuid_copy-IsName (json.string_value v),
  )

  listener_loop-within :
      (alloc : CString → Bool) (items : List (CString × json.Value)) (n : ℕ)
      → n ≤ max_entries
      → (n + length (listener_loop json alloc items n).entries ≤ max_entries)
        × All IsEntry (listener_loop json alloc items n).entries
  unfolding listener_loop
  listener_loop-within alloc [] n h = (omega arith, tt)
  listener_loop-within alloc ((k, v) ∷ items) n h = ground (
    arith,
    listener_loop-within alloc items n h,
    λ (l : n < max_entries). listener_loop-within alloc items (n + 1) (omega arith),
    uuid_copy-uuid_ok k,
    uuid_copy-IsName k,
    source_loop-within (json.array_items v) 0 (omega arith),
  )

  parse_channel-within :
      (allocs : ChannelAllocs) (chan : Option json.Value)
      → (length (parse_channel json allocs chan).entries ≤ max_entries)
        × All IsEntry (parse_channel json allocs chan).entries
  unfolding parse_channel
  parse_channel-within allocs none = (omega arith, tt)
  parse_channel-within allocs (some chan) =
      ground (arith, listener_loop-within allocs.sources (json.object_entries chan) 0 (omega arith))

  base_loop-within :
      (items : List (CString × json.Value)) (n : ℕ)
      → n ≤ max_entries * 2
      → (n + length (base_loop json items n).0 ≤ max_entries * 2)
        × All IsBase (base_loop json items n).0
  unfolding base_loop in_uint32
  base_loop-within [] n h = (omega arith, tt)
  base_loop-within ((k, v) ∷ items) n h = ground (
    arith,
    base_loop-within items n h,
    λ (l : n < max_entries * 2). base_loop-within items (n + 1) (omega arith),
    uuid_copy-uuid_ok k,
    uuid_copy-IsName k,
  )

  parse_base-within :
      (alloc has_epoch : Bool) (v : Option json.Value)
      → (length (parse_base json alloc has_epoch v).0 ≤ max_entries * 2)
        × All IsBase (parse_base json alloc has_epoch v).0
        × (has_epoch ≡ false → (parse_base json alloc has_epoch v).0 ≡ [])
  unfolding parse_base
  parse_base-within alloc has_epoch none = (omega arith, tt, λ e. refl)
  parse_base-within alloc has_epoch (some v) =
      ground (arith, base_loop-within (json.object_entries v) 0 (omega arith))

  parse_room_epoch_nonzero : (j : json.Value) (v : ℕ) → parse_room_epoch json j ≡ some v → v ≢ 0
  unfolding parse_room_epoch
  parse_room_epoch_nonzero j v h = ground (arith, parse_epoch_nonzero (json.string_value j) v)

  parse_generation_range :
      (j : Option json.Value) (g : ℕ)
      → parse_generation json j ≡ some g
      → (1 ≤ g) × (g ≤ uint32_max)
  unfolding parse_generation in_uint32
  parse_generation_range none g h = cc
  parse_generation_range (some v) g h = ground arith

  parse_stamp_lem :
      (b : json.Value) (epoch gen : ℕ)
      → parse_stamp json b ≡ some (some (epoch, gen))
      → (epoch ≢ 0) × (1 ≤ gen) × (gen ≤ uint32_max)
  unfolding parse_stamp
  parse_stamp_lem b epoch gen h = elim (Option-cases (json.object_get b (codes "room_epoch"))) [
    | inl n ↦ ground (arith, n, h)
    | inr (j, e) ↦ ground (
      arith,
      e,
      h,
      parse_room_epoch_nonzero j,
      parse_generation_range (json.object_get b (codes "policy_generation")),
    )
  ]

  with_op : (op : VisOp) → IsWithin (record zeroed { op = op })
  with_op op = record {
    entries_bounded = omega arith;
    entries_named = tt;
    mutes_bounded = omega arith;
    mutes_named = tt;
    base_bounded = omega arith;
    base_named = tt;
    stamp = (refl, refl, refl);
  }

  zeroed-IsWithin : IsWithin zeroed
  zeroed-IsWithin = with_op op_add

  -- The stamp and the bases go together.
  IsStamp-base :
      (out : VisBatch) (base : List VisBase)
      → IsStamp out
      → (out.has_epoch ≡ false → base ≡ [])
      → if out.has_epoch
        then (out.room_epoch ≢ 0)
          × (1 ≤ out.policy_generation)
          × (out.policy_generation ≤ uint32_max)
        else (out.room_epoch ≡ 0) × (out.policy_generation ≡ 0) × (base ≡ [])
  IsStamp-base out base h k = ground (arith, k)

  parse_objects-IsWithin :
      (allocs : Allocs) (b : json.Value) (out : VisBatch)
      → IsStamp out
      → IsWithin (parse_objects json allocs b out).1
  unfolding parse_objects
  parse_objects-IsWithin allocs b out h =
      let excl = parse_channel-within allocs.excl (json.object_get b (codes "excl")) in
      let mute = parse_channel-within allocs.mute (json.object_get b (codes "mute")) in
      let base = parse_base-within allocs.base out.has_epoch (json.object_get b (codes "base")) in
      record {
        entries_bounded = excl.0;
        entries_named = excl.1;
        mutes_bounded = mute.0;
        mutes_named = mute.1;
        base_bounded = base.0;
        base_named = base.1;
        stamp = IsStamp-base out _ h base.2;
      }

  stamped-IsStamp :
      (b : json.Value) (out : VisBatch) (stamp : Option (ℕ × ℕ))
      → parse_stamp json b ≡ some stamp
      → IsStamp out
      → IsStamp (stamped json stamp out)
  stamped-IsStamp b out none e h = h
  stamped-IsStamp b out (some (epoch, gen)) e h = parse_stamp_lem b epoch gen e

  -- Whatever the bytes, and whatever `calloc` refuses, the batch that the parser leaves is within its limits:
  -- at most 128 listeners in each channel with at most 128 sources each, at most 256 bases, every name not
  -- empty and stored whole in its buffer, every base a 32-bit number, and a stamp that is either absent or
  -- an epoch that is not zero with a generation from 1 to 2^32 - 1. A batch without a stamp has no bases.
  pub visbatch_parse-IsWithin :
      (allocs : Allocs) (buf : Option (List ℕ)) → IsWithin (visbatch_parse json allocs buf).1
  visbatch_parse-IsWithin allocs buf =
      outcomes json allocs LeavesWithin (λ op. with_op op) zeroed-IsWithin
        (λ b op room stamp e.
          parse_objects-IsWithin allocs b _
            (stamped-IsStamp b (record zeroed { op = op; room = room }) stamp e (refl, refl, refl)))
        buf
