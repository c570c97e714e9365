-- ===== src/Deferred/Contract.antt =====
-- What a reader of the store sees of a deposit and of a replay.
use legion_voice_mixer.Prelude.{
  ℕ, ◌≤◌, ◌<◌, ◌≡◌, ◌≢◌, ◌↔◌, ◌⊎◌, inl, inr, refl, Bool, true, false, ◌||◌, [], ◌∷◌, Option, none,
  some, CString, arith, str_eq, str_eq_refl, str_eq_iff, length, get_elem?, if◌then◌else◌, leb,
  uuid_len, Bool-cases,
}
use legion_voice_mixer.Columns.{
  VisOp, op_add, op_remove, op_replace, Column, is_nil, channel_update, keep_rows,
}
use legion_voice_mixer.Deferred.{
  Entry, Store, max_deferred, next, get, find_idx, remove_at, oldest, make_room, new_entry,
  update_entry, put, is_remove, replay_done,
}
use legion_voice_mixer.Deferred.Remove.{
  find, find-get_elem?, find_idx-Found, find_cases, get-eq-find, find-remove_at,
}
use legion_voice_mixer.Deferred.Rows.{find-snoc, get_elem?-lt, NoneOlder, oldest-NoneOlder}
use legion_voice_mixer.Deferred.Put.{
  IsValid, kept, find-make_room-none, put_found, put_new, added, find-update_at, remove_at-IsValid,
}
use legion_voice_mixer.Deferred.Laws.{listener-added}

-- One channel of a record, where there is one: the mute column or the exclusion column.
abbrev pub channel : Bool → Option Entry → Column
channel is_mute none = []
channel is_mute (some e) = if is_mute then e.mute else e.excl

-- The column that the store holds for a listener.
abbrev pub column : CString → Bool → Store → Column
column listener is_mute st = channel is_mute (get st listener)

nil_of_is_nil : (rows : Column) → is_nil rows ≡ true → rows ≡ []
nil_of_is_nil [] h = refl
nil_of_is_nil (r ∷ rows) h = cc

channel-kept : (e : Entry) (ch : Bool) → channel ch (kept e) ≡ channel ch (some e)
channel-kept e ch = ground (arith, nil_of_is_nil e.excl, nil_of_is_nil e.mute)

abbrev pub same : Bool → Bool → Bool
same true b = b
same false true = false
same false false = true

channel-new_entry :
    (k : CString) (stamp : ℕ) (ch : Bool) → channel ch (some (new_entry k stamp)) ≡ []
unfolding new_entry
channel-new_entry k stamp ch = ground arith

module _ (alloc : Bool) (op : VisOp) (src : Column) (is_mute : Bool) where
  channel-update_entry :
      (e : Entry) (ch : Bool)
      → channel ch (some (update_entry alloc op src is_mute e)) ≡ (
          if same ch is_mute
          then channel_update alloc op src (channel ch (some e))
          else channel ch (some e))
  unfolding update_entry
  channel-update_entry e ch = ground arith

  -- An update that creates no record would have changed nothing.
  channel_update-nothing : (is_remove op || is_nil src) ≡ true → channel_update alloc op src [] ≡ []
  unfolding channel_update
  channel_update-nothing h = ground (arith, nothing op)
    where
      nothing :
          (o : VisOp) → (is_remove o || is_nil src) ≡ true → channel_update alloc o src [] ≡ []
      nothing op_add e = ground arith
      nothing op_remove e = unfold keep_rows in refl
      nothing op_replace e = ground arith

module _ (alloc : Bool) (op : VisOp) (src : Column) (is_mute : Bool) (st : Store)
    (listener : CString) (short : length listener < uuid_len) where
  find-put_found :
      (k : CString) (i : ℕ) (e : Entry)
      → find_idx st.entries listener ≡ some i
      → get_elem? st.entries i ≡ some e
      → IsValid st.entries
      → find k (put alloc st listener op src is_mute).entries ≡ (
          if str_eq e.listener k
          then kept (update_entry alloc op src is_mute e)
          else find k st.entries)
  find-put_found k i e q g v = rw (put_found alloc op src is_mute st listener i q) (
      find-update_at alloc op src is_mute k (record st { replaced = next st.replaced }) i e v.unique
        g)

  find-put_new :
      (k : CString)
      → find_idx st.entries listener ≡ none
      → IsValid st.entries
      → find k (put alloc st listener op src is_mute).entries ≡ (
          if is_remove op || is_nil src
          then find k st.entries
          else if str_eq listener k
          then kept (added alloc op src is_mute st listener)
          else find k (make_room st).entries)
  find-put_new k n v = ground (
    arith,
    put_new alloc op src is_mute st listener n,
    listener-added alloc op src is_mute st listener short,
    absent,
    find-snoc k (make_room st).entries (added alloc op src is_mute st listener),
    str_eq_iff listener k,
  )
    where
      absent : find listener (make_room st).entries ≡ none
      absent = find-make_room-none st listener v (rw n at (find_idx-Found st.entries listener))

  -- In a sound store, and for a name that fits, a deposit updates the column that it names, of the listener that it names, as the merge says, and
  -- leaves the listener's other column alone; a missing record counts as two empty columns.
  pub put-column :
      (ch : Bool)
      → IsValid st.entries
      → column listener ch (put alloc st listener op src is_mute) ≡ (
          if same ch is_mute
          then channel_update alloc op src (column listener ch st)
          else column listener ch st)
  put-column ch v =
      rw (get-eq-find, get-eq-find)
        (elim (find_cases st.entries listener) [
          | inl (n, absent) ↦ ground (
            arith,
            find-put_new listener n v,
            absent,
            str_eq_refl listener,
            channel_update-nothing alloc op src is_mute,
            channel-kept (added alloc op src is_mute st listener) ch,
            channel-update_entry alloc op src is_mute (new_entry listener (next (make_room st).seq))
                ch,
            channel-new_entry listener (next (make_room st).seq) ch,
          )
          | inr (i, e, q, g, f, t) ↦ ground (
            arith,
            find-put_found listener i e q g v,
            str_eq_iff e.listener listener,
            channel-kept (update_entry alloc op src is_mute e) ch,
            channel-update_entry alloc op src is_mute e ch,
          )
        ])

-- The eviction of `o`, a record than which none is older, from a full store.
abbrev pub Evicted : Store → CString → Option Entry → Type 0
Evicted st k r =
    (max_deferred ≤ length st.entries)
    × (o : Entry) × (get st k ≡ some o)
    × NoneOlder o.added_seq st.entries
    × (r ≡ none)

find-make_room :
    (st : Store) (k : CString)
    → IsValid st.entries
    → (find k (make_room st).entries ≡ find k st.entries)
      ⊎ Evicted st k (find k (make_room st).entries)
unfolding make_room
find-make_room st k v = elim (Bool-cases (leb max_deferred (length st.entries))) [
  | inr room ↦ inl (rw room)
  | inl full ↦
      let (o, g, old) = oldest-NoneOlder st.entries (ground (arith, full)) in
      let e = find-remove_at k st.entries (oldest st.entries) o v.unique g in
      elim (Bool-cases (str_eq o.listener k)) [
        | inr miss ↦ inl (rw full (ground (arith, e, miss)))
        | inl hit ↦ inr (
          ground (arith, full),
          o,
          rw get-eq-find (
              ground (
                arith,
                hit,
                str_eq_iff o.listener k,
                find-get_elem? st.entries (oldest st.entries) o v.unique g,
              )),
          old,
          rw full (ground (arith, e, hit)),
        )
      ]
]

module _ (alloc : Bool) (op : VisOp) (src : Column) (is_mute : Bool) (st : Store)
    (listener : CString) (short : length listener < uuid_len) where
  -- In a sound store, and for a name that fits, a deposit for one listener leaves the record of every other one alone, but for this: at a full
  -- store the record that it evicts is a record with the lowest stamp.
  pub put_other :
      (k : CString)
      → listener ≢ k
      → IsValid st.entries
      → (get (put alloc st listener op src is_mute) k ≡ get st k)
        ⊎ Evicted st k (get (put alloc st listener op src is_mute) k)
  put_other k ne v =
      rw (get-eq-find (put alloc st listener op src is_mute) k)
        (elim (find_cases st.entries listener) [
          | inr (i, e, q, g, f, t) ↦ inl (
              ground (
                arith,
                get-eq-find st k,
                find-put_found alloc op src is_mute st listener short k i e q g v,
                str_eq_iff e.listener k,
              ))
          | inl (n, absent) ↦
              let d = find-put_new alloc op src is_mute st listener short k n v in
              elim (find-make_room st k v) [
                | inl kept_it ↦
                    inl (ground (arith, get-eq-find st k, d, kept_it, str_eq_iff listener k))
                | inr (full, o, g, old, gone) ↦ elim (Bool-cases (is_remove op || is_nil src)) [
                  | inl t ↦ inl (ground (arith, get-eq-find st k, d, t))
                  | inr t ↦ inr (full, o, g, old, ground (arith, d, t, gone, str_eq_iff listener k))
                ]
              ]
        ])

-- In a sound store the replay of a listener's columns takes its record out and no other one, reports whether
-- there was one, and leaves the store sound.
pub replay_done_lem :
    (st : Store) (listener k : CString)
    → IsValid st.entries
    → (get (replay_done st listener).1 k ≡ (if str_eq listener k then none else get st k))
      × (((replay_done st listener).0 ≡ true) ↔ (get st listener ≢ none))
      × IsValid (replay_done st listener).1.entries
unfolding replay_done
replay_done_lem st listener k v = elim (find_cases st.entries listener) [
  | inl (n, absent) ↦
      ground (arith, n, get-eq-find st listener, get-eq-find st k, str_eq_iff listener k)
  | inr (i, e, q, g, f, t) ↦ ground (
    arith,
    q,
    get-eq-find st listener,
    get-eq-find st k,
    get-eq-find (record st { entries = remove_at st.entries i; replayed = next st.replayed }) k,
    find-remove_at k st.entries i e v.unique g,
    remove_at-IsValid st.entries i v (get_elem?-lt st.entries i g),
  )
]
