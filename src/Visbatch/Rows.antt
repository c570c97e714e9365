-- ===== src/Visbatch/Rows.antt =====
-- One per-listener channel of a batch: `slv_vis_uuid_ok` and `slv_vis_parse_channel` of src/visbatch.c.
use legion_voice_mixer.Prelude.{
  ℕ, ◌+◌, Bool, not, ◌&&◌, ◌||◌, List, [], ◌∷◌, Option, none, some, CString, length, leb, ltb,
  uuid_len, if◌then◌else◌,
}
use legion_voice_mixer.Json.{Json}
use legion_voice_mixer.Columns.{Column, uuid_copy}
use legion_voice_mixer.Visibility.{VisEntry}

-- SLV_VIS_MAX_ENTRIES
abbrev pub max_entries : ℕ
max_entries = 128

-- SLV_VIS_MAX_EXCL
abbrev pub max_excl : ℕ
max_excl = 128

-- `slv_vis_uuid_ok` at a string that is not NULL: not empty, and short enough to store.
unfoldable pub uuid_ok : CString → Bool
uuid_ok s = ltb 0 (length s) && ltb (length s) uuid_len

-- Whether `calloc` succeeds for a channel's entries, and for the sources of a listener.
pub record ChannelAllocs : Type 0 where
  pub rows : Bool
  pub sources : CString → Bool

pub record Allocs : Type 0 where
  pub excl : ChannelAllocs
  pub mute : ChannelAllocs
  pub base : Bool

-- What a channel gives: its entries, and how much it adds to `*n_skipped`.
pub record Channel : Type 0 where
  pub entries : List VisEntry
  pub n_skipped : ℕ

module _ (json : Json) where
  -- The loop over a listener's sources, after `n` of them are kept.
  unfoldable pub source_loop : List json.Value → ℕ → Column × ℕ
  unfolding uuid_ok uuid_copy
  source_loop [] n = ([], 0)
  source_loop (v ∷ items) n =
      let kept = source_loop items (n + 1) in
      let skipped = source_loop items n in
      if leb max_excl n || not (json.is_string v) || not (uuid_ok (json.string_value v))
      then (skipped.0, skipped.1 + 1)
      else (uuid_copy (json.string_value v) ∷ kept.0, kept.1)

  -- The loop over the listeners, after `n` entries are kept. An entry without sources stays.
  unfoldable pub listener_loop : (CString → Bool) → List (CString × json.Value) → ℕ → Channel
  unfolding source_loop uuid_ok uuid_copy
  listener_loop alloc [] n = record { entries = []; n_skipped = 0 }
  listener_loop alloc ((k, v) ∷ items) n =
      let sources = source_loop (json.array_items v) 0 in
      let kept = listener_loop alloc items (n + 1) in
      let skipped = listener_loop alloc items n in
      if leb max_entries n
        || not (uuid_ok k)
        || not (json.is_array v)
        || (ltb 0 (json.array_size v) && not (alloc k))
      then record skipped { n_skipped = skipped.n_skipped + 1 }
      else record {
        entries = record { listener = uuid_copy k; excl = sources.0 } ∷ kept.entries;
        n_skipped = sources.1 + kept.n_skipped;
      }

  -- `slv_vis_parse_channel`
  unfoldable pub parse_channel : ChannelAllocs → Option json.Value → Channel
  unfolding listener_loop
  parse_channel allocs none = record { entries = []; n_skipped = 0 }
  parse_channel allocs (some chan) =
      let all = listener_loop allocs.sources (json.object_entries chan) 0 in
      if json.is_object chan && (ltb 0 (json.object_size chan) && allocs.rows)
      then all
      else record { entries = []; n_skipped = 0 }
