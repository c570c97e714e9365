-- ===== src/Visbatch/Reference.antt =====
-- What one channel of a batch gives, said without the loops of src/visbatch.c: the first valid listeners,
-- each with the first of its valid sources.
use legion_voice_mixer.Prelude.{
  ℕ, zero, suc, ◌+◌, ◌-◌, ◌≡◌, refl, Bool, true, not, ◌&&◌, ◌||◌, List, [], ◌∷◌, some, CString,
  length, ltb, map, select, take, total, arith, Bool-cases, inl, inr,
}
use legion_voice_mixer.Json.{Json}
use legion_voice_mixer.Columns.{uuid_copy}
use legion_voice_mixer.Columns.Laws.{take-all}
use legion_voice_mixer.Visibility.{VisEntry}
use legion_voice_mixer.Visbatch.Rows.{
  max_entries, max_excl, uuid_ok, ChannelAllocs, source_loop, listener_loop, parse_channel,
}

pub uuid_copy-uuid_ok : (s : CString) → uuid_ok s ≡ true → uuid_copy s ≡ s
unfolding uuid_ok uuid_copy
uuid_copy-uuid_ok s h = take-all 39 s (ground arith)

nil_of_length {ℓ} : {A : Type ℓ} (xs : List A) → length xs ≡ 0 → xs ≡ []
nil_of_length [] h = refl
nil_of_length (x ∷ xs) h = absurd (omega arith)

module _ (json : Json) where
  abbrev pub is_source : json.Value → Bool
  is_source v = json.is_string v && uuid_ok (json.string_value v)

  abbrev pub sources : List json.Value → List json.Value
  sources items = take max_excl (select is_source items)

  abbrev pub is_listener : (CString → Bool) → CString × json.Value → Bool
  is_listener alloc x =
      uuid_ok x.0 && json.is_array x.1 && (not (ltb 0 (json.array_size x.1)) || alloc x.0)

  abbrev pub listeners :
      (CString → Bool) → List (CString × json.Value) → List (CString × json.Value)
  listeners alloc items = take max_entries (select (is_listener alloc) items)

  abbrev pub entry_of : CString × json.Value → VisEntry
  entry_of x = record {
    listener = x.0;
    excl = map json.string_value (sources (json.array_items x.1));
  }

  -- The sources of a listener that are left out.
  abbrev pub left_out : CString × json.Value → ℕ
  left_out x = length (json.array_items x.1) - length (sources (json.array_items x.1))

  source_loop_lem :
      (items : List json.Value) (n left : ℕ)
      → n + left ≡ max_excl
      → ((source_loop json items n).0 ≡ map json.string_value (take left (select is_source items)))
        × (length (take left (select is_source items)) + (source_loop json items n).1
            ≡ length items)
  unfolding source_loop
  source_loop_lem [] n zero h = (refl, refl)
  source_loop_lem [] n (suc left) h = (refl, refl)
  source_loop_lem (v ∷ items) n zero h = ground (arith, source_loop_lem items n zero h)
  source_loop_lem (v ∷ items) n (suc left) h = ground (
    arith,
    source_loop_lem items n (suc left) h,
    source_loop_lem items (n + 1) left (omega arith),
    uuid_copy-uuid_ok (json.string_value v),
  )

  source_loop-entry_of :
      (x : CString × json.Value)
      → ((source_loop json (json.array_items x.1) 0).0 ≡ (entry_of x).excl)
        × ((source_loop json (json.array_items x.1) 0).1 ≡ left_out x)
  source_loop-entry_of x =
      let (e, k) = source_loop_lem (json.array_items x.1) 0 max_excl refl in (e, omega arith)

  listener_loop_lem :
      (alloc : CString → Bool) (items : List (CString × json.Value)) (n left : ℕ)
      → n + left ≡ max_entries
      → ((listener_loop json alloc items n).entries
          ≡ map entry_of (take left (select (is_listener alloc) items)))
        × (length (take left (select (is_listener alloc) items))
              + (listener_loop json alloc items n).n_skipped
            ≡ length items + total (map left_out (take left (select (is_listener alloc) items))))
  unfolding listener_loop
  listener_loop_lem alloc [] n zero h = (refl, refl)
  listener_loop_lem alloc [] n (suc left) h = (refl, refl)
  listener_loop_lem alloc (x ∷ items) n zero h =
      ground (arith, listener_loop_lem alloc items n zero h)
  listener_loop_lem alloc (x ∷ items) n (suc left) h = ground (
    arith,
    listener_loop_lem alloc items n (suc left) h,
    listener_loop_lem alloc items (n + 1) left (omega arith),
    uuid_copy-uuid_ok x.0,
    source_loop-entry_of x,
  )

  -- When its array can be allocated, a channel holds an entry for each of its first 128 valid listeners, in
  -- the order of the object, with the first 128 of that listener's valid sources: a listener is valid when
  -- its name fits an identifier buffer and is not empty, its value is an array, and its sources can be
  -- allocated. Every other listener, and every other source of a kept listener, is counted as skipped.
  pub parse_channel_lem :
      (allocs : ChannelAllocs) (chan : json.Value)
      → json.is_object chan ≡ true
      → allocs.rows ≡ true
      → ((parse_channel json allocs (some chan)).entries
          ≡ map entry_of (listeners allocs.sources (json.object_entries chan)))
        × (length (listeners allocs.sources (json.object_entries chan))
              + (parse_channel json allocs (some chan)).n_skipped
            ≡ length (json.object_entries chan)
              + total (map left_out (listeners allocs.sources (json.object_entries chan))))
  unfolding parse_channel
  parse_channel_lem allocs chan o a = elim (Bool-cases (ltb 0 (json.object_size chan))) [
    | inl h ↦
        rw (o, h, a)
          (listener_loop_lem allocs.sources (json.object_entries chan) 0 max_entries refl)
    | inr h ↦
        let none_left : json.object_entries chan ≡ [] =
          nil_of_length (json.object_entries chan) (ground (arith, json.object_size_lem chan, h)) in
        rw (o, h, none_left) (refl, refl)
  ]
