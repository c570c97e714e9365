-- ===== src/Deferred/Put.antt =====
-- What a deposit does to the store: the invariant, the listener's own columns, and everyone else's.
use legion_voice_mixer.Prelude.{
  ℕ, ◌≤◌, ◌<◌, ◌≡◌, inl, inr, Bool, false, ◌&&◌, ◌||◌, List, [], ◌∷◌, ◌++◌, Option, none, some,
  CString, arith, str_eq, length, length-set, get_elem?, get_elem?-set_self, set, if◌then◌else◌,
  leb, Bool-cases,
}
use legion_voice_mixer.Columns.{VisOp, Column, is_nil}
use legion_voice_mixer.Columns.Laws.{Short, Distinct, channel_update-Distinct}
use legion_voice_mixer.Deferred.{
  Entry, Store, max_deferred, next, find_idx, remove_at, oldest, make_room, new_entry, create,
  update_entry, update_at, put, is_remove,
}
use legion_voice_mixer.Deferred.Remove.{
  find, Unique, Each, find-remove_at, find-remove_at-none, remove_at-Each, remove_at-Unique,
  length-remove_at,
}
use legion_voice_mixer.Deferred.Rows.{
  find-set, set-Unique, set-Each, get_elem?-snoc, get_elem?-lt, Each-get_elem?, oldest-NoneOlder,
  set-snoc, remove_at-snoc, remove_at-set,
}

-- A record holds something to replay, and neither of its columns holds a row twice.
abbrev pub Holds : Entry → Type 0
Holds e = ((is_nil e.excl && is_nil e.mute) ≡ false) × Distinct e.excl × Distinct e.mute

-- The invariant of a store's records: one for each listener, at most 256, each holding something.
pub record IsValid (es : List Entry) : Type 0 where
  pub unique : Unique es
  pub bounded : length es ≤ max_deferred
  pub held : Each Holds es

pub remove_at-IsValid :
    (es : List Entry) (i : ℕ) → IsValid es → i < length es → IsValid (remove_at es i)
remove_at-IsValid es i v h = record {
  unique = remove_at-Unique es i v.unique;
  bounded = omega (arith, length-remove_at es i h, v.bounded);
  held = remove_at-Each Holds es i v.held;
}

-- A record as an update leaves it, or nothing when both its channels are empty.
abbrev pub kept : Entry → Option Entry
kept e = if is_nil e.excl && is_nil e.mute then none else some e

module _ (alloc : Bool) (op : VisOp) (src : Column) (is_mute : Bool) where
  pub listener-update_entry :
      (e : Entry) → (update_entry alloc op src is_mute e).listener ≡ e.listener
  unfolding update_entry
  listener-update_entry e = ground arith

  pub find-update_at :
      (k : CString) (st : Store) (i : ℕ) (e : Entry)
      → Unique st.entries
      → get_elem? st.entries i ≡ some e
      → find k (update_at alloc op src is_mute st i).entries ≡ (
          if str_eq e.listener k
          then kept (update_entry alloc op src is_mute e)
          else find k st.entries)
  unfolding update_at
  find-update_at k st i e u g = ground (
    arith,
    listener-update_entry e,
    find-set k st.entries i e e' u g,
    find-remove_at k (set st.entries i e') i e'
        (set-Unique st.entries i e e' u g (listener-update_entry e))
        (get_elem?-set_self st.entries i e' (get_elem?-lt st.entries i g)),
  )
    where
      e' : Entry
      e' = update_entry alloc op src is_mute e

  abbrev pub fresh : Store → CString → Entry
  fresh st listener = update_entry alloc op src is_mute (new_entry listener (next st.seq))

  -- The record of a new listener goes to the end of the array, or away again if it holds nothing.
  update_at-create :
      (st : Store) (listener : CString)
      → (update_at alloc op src is_mute (create st listener) (length st.entries)).entries ≡ (
          if is_nil (fresh st listener).excl && is_nil (fresh st listener).mute
          then st.entries
          else st.entries ++ fresh st listener ∷ [])
  unfolding update_at create
  update_at-create st listener = ground (
    arith,
    get_elem?-snoc st.entries (new_entry listener (next st.seq)),
    set-snoc st.entries (new_entry listener (next st.seq)) (fresh st listener),
    remove_at-snoc st.entries (fresh st listener),
  )

  pub update_entry_columns :
      (e : Entry)
      → Short src
      → Distinct e.excl
      → Distinct e.mute
      → Distinct (update_entry alloc op src is_mute e).excl
        × Distinct (update_entry alloc op src is_mute e).mute
  unfolding update_entry
  update_entry_columns e h d d' = ground (
    arith,
    channel_update-Distinct alloc op src e.excl h d,
    channel_update-Distinct alloc op src e.mute h d',
  )

  pub entries-update_at :
      (st : Store) (i : ℕ) (e : Entry)
      → get_elem? st.entries i ≡ some e
      → (update_at alloc op src is_mute st i).entries ≡ (
          if is_nil (update_entry alloc op src is_mute e).excl
            && is_nil (update_entry alloc op src is_mute e).mute
          then remove_at st.entries i
          else set st.entries i (update_entry alloc op src is_mute e))
  unfolding update_at
  entries-update_at st i e g =
      ground (arith, remove_at-set st.entries i (update_entry alloc op src is_mute e))

  pub update_at-IsValid :
      (st : Store) (i : ℕ) (e : Entry)
      → Short src
      → get_elem? st.entries i ≡ some e
      → IsValid st.entries
      → IsValid (update_at alloc op src is_mute st i).entries
  update_at-IsValid st i e h g v =
      rw (entries-update_at st i e g) (elim (Bool-cases (is_nil e'.excl && is_nil e'.mute)) [
        | inl t ↦ rw t (remove_at-IsValid st.entries i v (get_elem?-lt st.entries i g))
        | inr t ↦ rw t (record {
          unique = set-Unique st.entries i e e' v.unique g (listener-update_entry e);
          bounded = rw length-set v.bounded;
          held =
              set-Each Holds st.entries i e' v.held
                (let d = update_entry_columns e h own.1 own.2 in (t, d.0, d.1));
        })
      ])
    where
      e' : Entry
      e' = update_entry alloc op src is_mute e

      own : Holds e
      own = Each-get_elem? Holds st.entries i e v.held g

-- The store with room for one more record, and what it takes to make it.
pub make_room-IsValid :
    (st : Store)
    → IsValid st.entries
    → IsValid (make_room st).entries × (length (make_room st).entries < max_deferred)
unfolding make_room
make_room-IsValid st v = elim (Bool-cases (leb max_deferred (length st.entries))) [
  | inl full ↦
      let (o, g, _) = oldest-NoneOlder st.entries (ground (arith, full)) in
      let lt = get_elem?-lt st.entries (oldest st.entries) g in
      let v' = remove_at-IsValid st.entries (oldest st.entries) v lt in
      rw full (v', omega (arith, length-remove_at st.entries (oldest st.entries) lt, v.bounded))
  | inr room ↦ rw room (v, ground (arith, room))
]

pub find-make_room-none :
    (st : Store) (k : CString)
    → IsValid st.entries
    → find k st.entries ≡ none
    → find k (make_room st).entries ≡ none
unfolding make_room
find-make_room-none st k v h =
    ground (arith, find-remove_at-none k st.entries (oldest st.entries) v.unique h)

module _ (alloc : Bool) (op : VisOp) (src : Column) (is_mute : Bool) (st : Store)
    (listener : CString) where
  abbrev pub after : Store
  after = put alloc st listener op src is_mute

  abbrev pub added : Entry
  added = fresh alloc op src is_mute (make_room st) listener

  -- The two ways in which a deposit goes: an update in place, or a new record.
  pub put_found :
      (i : ℕ)
      → find_idx st.entries listener ≡ some i
      → after.entries
        ≡ (update_at alloc op src is_mute (record st { replaced = next st.replaced }) i).entries
  unfolding put
  put_found i q = rw (q, put)

  pub put_new :
      find_idx st.entries listener ≡ none
      → after.entries ≡ (
          if is_remove op || is_nil src
          then st.entries
          else if is_nil added.excl && is_nil added.mute
          then (make_room st).entries
          else (make_room st).entries ++ added ∷ [])
  unfolding put
  put_new q =
      rw (q, put) (ground (arith, update_at-create alloc op src is_mute (make_room st) listener))
