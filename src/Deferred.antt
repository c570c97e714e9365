-- ===== src/Deferred.antt =====
-- src/deferred.c: the store, one for each room, of the columns that arrived for listeners who have
-- not joined yet. The array of records is the list of its first `n` records; the `uint64_t` counters
-- wrap. A call makes at most one `malloc`, which `alloc` says to succeed or not.
pub mod Remove
pub mod Rows
pub mod Put
pub mod Laws
pub mod Contract
pub mod History
use legion_voice_mixer.Prelude.{
  ℕ, zero, suc, ◌+◌, ◌%◌, ◌^◌, Bool, true, false, ◌&&◌, ◌||◌, List, [], ◌∷◌, ◌++◌, Option, none,
  some, CString, str_eq, length, get_elem?, set, ltb, leb, if◌then◌else◌,
}
use legion_voice_mixer.Swap.{move_last}
use legion_voice_mixer.Columns.{
  VisOp, op_add, op_remove, op_replace, Column, is_nil, uuid_copy, channel_update,
}

abbrev pub max_deferred : ℕ
max_deferred = 256

-- `slv_deferred_entry`
pub record Entry : Type 0 where
  pub listener : CString
  pub excl : Column
  pub mute : Column
  pub added_seq : ℕ

-- `slv_deferred_store`
pub record Store : Type 0 where
  pub entries : List Entry
  pub seq : ℕ
  pub adds : ℕ
  pub replaced : ℕ
  pub replayed : ℕ
  pub evicted : ℕ

-- `x + 1` on a `uint64_t`.
abbrev pub next : ℕ → ℕ
next x = (x + 1) % 2 ^ 64

-- `slv_deferred_init`
unfoldable pub init : Store
init = record { entries = []; seq = 0; adds = 0; replaced = 0; replayed = 0; evicted = 0 }

-- `slv_deferred_free_all`: the counters are kept.
unfoldable pub free_all : Store → Store
free_all st = record st { entries = [] }

-- `slv_deferred_count`
unfoldable pub count : Store → ℕ
count st = length st.entries

abbrev pub one_on : Option ℕ → Option ℕ
one_on none = none
one_on (some i) = some (suc i)

-- The index of the first record for `listener`.
unfoldable pub find_idx : List Entry → CString → Option ℕ
find_idx [] listener = none
find_idx (e ∷ es) listener =
    let later = one_on (find_idx es listener) in
    if str_eq e.listener listener then some zero else later

-- `slv_deferred_get`
unfoldable pub get : Store → CString → Option Entry
unfolding find_idx
get st listener = elim (find_idx st.entries listener) [
  | none ↦ none
  | some i ↦ get_elem? st.entries i
]

-- `remove_at`: the last record fills the hole at `i`.
unfoldable pub remove_at : List Entry → ℕ → List Entry
unfolding move_last
remove_at [] i = []
remove_at (e ∷ es) zero = move_last es
remove_at (e ∷ es) (suc i) = e ∷ remove_at es i

-- The loop that looks for the oldest record from index `k` on; `best` holds `stamp`.
unfoldable pub oldest_from : List Entry → ℕ → ℕ → ℕ → ℕ
oldest_from [] k best stamp = best
oldest_from (e ∷ es) k best stamp =
    oldest_from es (suc k) (if ltb e.added_seq stamp then k else best)
      (if ltb e.added_seq stamp then e.added_seq else stamp)

-- The index of the record with the lowest stamp, the first of them.
unfoldable pub oldest : List Entry → ℕ
unfolding oldest_from
oldest [] = 0
oldest (e ∷ es) = oldest_from es 1 0 e.added_seq

-- At the cap the oldest record is evicted and counted.
unfoldable pub make_room : Store → Store
unfolding oldest remove_at
make_room st =
    if leb max_deferred (length st.entries)
    then record st { entries = remove_at st.entries (oldest st.entries); evicted = next st.evicted }
    else st

unfoldable pub new_entry : CString → ℕ → Entry
new_entry listener stamp = record {
  listener = uuid_copy listener;
  excl = [];
  mute = [];
  added_seq = stamp;
}

-- A fresh record at the end of the array.
unfoldable pub create : Store → CString → Store
unfolding new_entry
create st listener = record st {
  entries = st.entries ++ new_entry listener (next st.seq) ∷ [];
  seq = next st.seq;
  adds = next st.adds;
}

unfoldable pub update_entry : Bool → VisOp → Column → Bool → Entry → Entry
update_entry alloc op src is_mute e =
    if is_mute
    then record e { mute = channel_update alloc op src e.mute }
    else record e { excl = channel_update alloc op src e.excl }

-- Update the record at `i`, and remove it when both its channels are empty.
unfoldable pub update_at : Bool → VisOp → Column → Bool → Store → ℕ → Store
unfolding update_entry remove_at
update_at alloc op src is_mute st i = elim (get_elem? st.entries i) [
  | none ↦ st
  | some e ↦
      let e' = update_entry alloc op src is_mute e in
      let es = set st.entries i e' in
      if is_nil e'.excl && is_nil e'.mute
      then record st { entries = remove_at es i }
      else record st { entries = es }
]

abbrev pub is_remove : VisOp → Bool
is_remove op_remove = true
is_remove op_add = false
is_remove op_replace = false

-- `slv_deferred_put`
unfoldable pub put : Bool → Store → CString → VisOp → Column → Bool → Store
unfolding find_idx make_room create update_at
put alloc st listener op src is_mute = elim (find_idx st.entries listener) [
  | none ↦
      if is_remove op || is_nil src
      then st
      else let roomy = make_room st in
        update_at alloc op src is_mute (create roomy listener) (length roomy.entries)
  | some i ↦ update_at alloc op src is_mute (record st { replaced = next st.replaced }) i
]

-- `slv_deferred_replay_done`
unfoldable pub replay_done : Store → CString → Bool × Store
unfolding find_idx remove_at
replay_done st listener = elim (find_idx st.entries listener) [
  | none ↦ (false, st)
  | some i ↦ (true, record st { entries = remove_at st.entries i; replayed = next st.replayed })
]
