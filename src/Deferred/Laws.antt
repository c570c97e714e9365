-- ===== src/Deferred/Laws.antt =====
-- The contract of the deferred store: a map from listeners to two columns, bounded by eviction.
use legion_voice_mixer.Prelude.{
  ◌<◌, ◌≡◌, inl, inr, refl, Bool, true, false, ◌&&◌, List, [], ◌∷◌, ◌++◌, none, CString, arith,
  length, length-append, if◌then◌else◌, uuid_len, Option-cases,
}
use legion_voice_mixer.Columns.{VisOp, Column, is_nil}
use legion_voice_mixer.Columns.Laws.{Short, uuid_copy_exact}
use legion_voice_mixer.Deferred.{
  Entry, Store, max_deferred, next, find_idx, make_room, new_entry, update_entry, put,
}
use legion_voice_mixer.Deferred.Remove.{find, find_idx-Found}
use legion_voice_mixer.Deferred.Rows.{snoc-Unique, snoc-Each}
use legion_voice_mixer.Deferred.Put.{
  Holds, IsValid, make_room-IsValid, find-make_room-none, put_found, put_new, added,
  update_at-IsValid, update_entry_columns,
}

snoc-IsValid :
    (es : List Entry) (e : Entry)
    → IsValid es
    → length es < max_deferred
    → find e.listener es ≡ none
    → Holds e
    → IsValid (es ++ e ∷ [])
snoc-IsValid es e v room absent h = record {
  unique = snoc-Unique es e v.unique absent;
  bounded = omega (arith, length-append es (e ∷ []));
  held = snoc-Each Holds es e v.held h;
}

module _ (alloc : Bool) (op : VisOp) (src : Column) (is_mute : Bool) (st : Store)
    (listener : CString) (short : length listener < uuid_len) where
  pub listener-added : (added alloc op src is_mute st listener).listener ≡ listener
  unfolding new_entry update_entry
  listener-added = ground (arith, uuid_copy_exact listener short)

  new-IsValid :
      (b c : Bool)
      → (is_nil (added alloc op src is_mute st listener).excl
          && is_nil (added alloc op src is_mute st listener).mute)
        ≡ c
      → Short src
      → IsValid st.entries
      → find listener st.entries ≡ none
      → IsValid (
          if b
          then st.entries
          else if c
          then (make_room st).entries
          else (make_room st).entries ++ added alloc op src is_mute st listener ∷ [])
  new-IsValid true c e h v absent = v
  new-IsValid false true e h v absent = (make_room-IsValid st v).0
  new-IsValid false false e h v absent =
      let (v', room) = make_room-IsValid st v in
      let d =
        update_entry_columns alloc op src is_mute (new_entry listener (next (make_room st).seq)) h
          (unfold new_entry in tt) (unfold new_entry in tt) in
      snoc-IsValid (make_room st).entries (added alloc op src is_mute st listener) v' room
        (rw listener-added (find-make_room-none st listener v absent)) (e, d.0, d.1)

  -- A deposit keeps the store's invariant: one record for each listener, at most 256 of them, none
  -- empty, and no row twice in a column; with memory or without.
  pub put-IsValid :
      Short src → IsValid st.entries → IsValid (put alloc st listener op src is_mute).entries
  put-IsValid h v = elim (Option-cases (find_idx st.entries listener)) [
    | inl n ↦
        rw (put_new alloc op src is_mute st listener n)
          (new-IsValid _ _ refl h v (rw n at (find_idx-Found st.entries listener)))
    | inr (i, q) ↦
        let (e, g, _, _) = rw q at (find_idx-Found st.entries listener) in
        rw (put_found alloc op src is_mute st listener i q) (
          update_at-IsValid alloc op src is_mute (record st { replaced = next st.replaced }) i e h g
            v)
  ]
