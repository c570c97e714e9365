-- ===== src/Deferred/History.antt =====
-- A whole history of deposits, against the abstract view of the store as a map.
use legion_voice_mixer.Prelude.{
  ◌+◌, ◌≤◌, ◌<◌, ◌≡◌, inl, inr, refl, ◌∙◌, ap, Bool, true, ◌&&◌, List, [], ◌∷◌, CString, arith,
  str_eq, str_eq_iff, length, length-append, length-set, if◌then◌else◌, leb, uuid_len, Bool-cases,
}
use legion_voice_mixer.Columns.{VisOp, Column, channel_update}
use legion_voice_mixer.Columns.Laws.{Short}
use legion_voice_mixer.Deferred.{Store, max_deferred, next, put, make_room, oldest, update_entry}
use legion_voice_mixer.Deferred.Remove.{find_cases, length-remove_at}
use legion_voice_mixer.Deferred.Rows.{get_elem?-lt, oldest-NoneOlder}
use legion_voice_mixer.Deferred.Put.{IsValid, put_new, put_found, added, entries-update_at}
use legion_voice_mixer.Deferred.Laws.{put-IsValid}
use legion_voice_mixer.Deferred.Contract.{column, channel, same, put-column, put_other}

-- One deposit of a history: whether its `malloc` succeeds, and the arguments of the call.
pub record Deposit : Type 0 where
  pub alloc : Bool
  pub listener : CString
  pub op : VisOp
  pub src : Column
  pub is_mute : Bool

abbrev pub deposit : Store → Deposit → Store
deposit st d = put d.alloc st d.listener d.op d.src d.is_mute

unfoldable pub deposits : Store → List Deposit → Store
deposits st [] = st
deposits st (d ∷ ds) = deposits (deposit st d) ds

-- The abstract view: a column of one listener is what its own deposits made of it, in order.
abbrev pub own_column : CString → Bool → Column → List Deposit → Column
own_column k ch col [] = col
own_column k ch col (d ∷ ds) =
    own_column k ch
      (if str_eq d.listener k && same ch d.is_mute
        then channel_update d.alloc d.op d.src col
        else col)
      ds

abbrev pub ShortNames : List Deposit → Type 0
ShortNames [] = Unit {0}
ShortNames (d ∷ ds) = (length d.listener < uuid_len) × Short d.src × ShortNames ds

length-make_room : (st : Store) → length (make_room st).entries ≤ length st.entries
unfolding make_room
length-make_room st = elim (Bool-cases (leb max_deferred (length st.entries))) [
  | inr room ↦ rw room (omega arith)
  | inl full ↦
      let (o, g, _) = oldest-NoneOlder st.entries (ground (arith, full)) in
      rw full (
        omega (
          arith,
          length-remove_at st.entries (oldest st.entries)
              (get_elem?-lt st.entries (oldest st.entries) g),
        ))
]

length-deposit : (st : Store) (d : Deposit) → length (deposit st d).entries ≤ length st.entries + 1
length-deposit st d = elim (find_cases st.entries d.listener) [
  | inl (n, absent) ↦ ground (
    arith,
    put_new d.alloc d.op d.src d.is_mute st d.listener n,
    length-make_room st,
    length-append (make_room st).entries (added d.alloc d.op d.src d.is_mute st d.listener ∷ []),
  )
  | inr (i, e, q, g, f, t) ↦ ground (
    arith,
    put_found d.alloc d.op d.src d.is_mute st d.listener i q,
    entries-update_at d.alloc d.op d.src d.is_mute (record st { replaced = next st.replaced }) i e
        g,
    length-remove_at st.entries i (get_elem?-lt st.entries i g),
    length-set st.entries i (update_entry d.alloc d.op d.src d.is_mute e),
  )
]

deposit-column :
    (st : Store) (d : Deposit) (k : CString) (ch : Bool)
    → length d.listener < uuid_len
    → IsValid st.entries
    → length st.entries < max_deferred
    → column k ch (deposit st d) ≡ (
        if str_eq d.listener k && same ch d.is_mute
        then channel_update d.alloc d.op d.src (column k ch st)
        else column k ch st)
deposit-column st d k ch short v room = elim (Bool-cases (str_eq d.listener k)) [
  | inl t ↦ own ((str_eq_iff d.listener k).0 t) t
  | inr f ↦
      rw f
        (elim (put_other d.alloc d.op d.src d.is_mute st d.listener short k
          (λ e. ground (arith, f, (str_eq_iff d.listener k).1 e)) v) [
            | inl e ↦ ap (channel ch) e
            | inr (full, _, _, _, _) ↦ absurd (omega arith)
          ])
]
  where
    own :
        d.listener ≡ k
        → str_eq d.listener k ≡ true
        → column k ch (deposit st d) ≡ (
            if str_eq d.listener k && same ch d.is_mute
            then channel_update d.alloc d.op d.src (column k ch st)
            else column k ch st)
    own e t = rw (t, ← e) (put-column d.alloc d.op d.src d.is_mute st d.listener short ch v)

-- From a sound store with room for one more record for each deposit, and with names that fit their
-- buffers, each column of each listener is exactly what that listener's own deposits make of it, in their
-- order, whatever else is deposited in between.
pub deposits-own_column :
    (st : Store) (ds : List Deposit) (k : CString) (ch : Bool)
    → ShortNames ds
    → IsValid st.entries
    → length st.entries + length ds ≤ max_deferred
    → column k ch (deposits st ds) ≡ own_column k ch (column k ch st) ds
unfolding deposits
deposits-own_column st [] k ch h v room = refl
deposits-own_column st (d ∷ ds) k ch h v room =
    deposits-own_column (deposit st d) ds k ch h.2
      (put-IsValid d.alloc d.op d.src d.is_mute st d.listener h.0 h.1 v)
      (omega (arith, length-deposit st d))
    ∙ ap (λ c. own_column k ch c ds) (deposit-column st d k ch h.0 v (omega arith))

-- After any history of deposits whose names fit their buffers, a sound store still has one record for each listener, at most 256 of them,
-- none empty, and no row twice in a column.
pub deposits-IsValid :
    (st : Store) (ds : List Deposit)
    → ShortNames ds
    → IsValid st.entries
    → IsValid (deposits st ds).entries
unfolding deposits
deposits-IsValid st [] h v = v
deposits-IsValid st (d ∷ ds) h v =
    deposits-IsValid (deposit st d) ds h.2
      (put-IsValid d.alloc d.op d.src d.is_mute st d.listener h.0 h.1 v)
