-- ===== src/Positions/Store.antt =====
-- The store of src/possync.c: a fixed table of 512 slots that is probed from a hash of the name. A slot
-- that is not `used` is `none`.
use Prim.Native.Nat.{bit_xor}
use legion_voice_mixer.Prelude.{
  ℕ, zero, suc, ◌+◌, ◌-◌, ◌*◌, ◌%◌, ◌^◌, Bool, true, not, ◌&&◌, ◌||◌, List, [], ◌∷◌, Option, none,
  some, CString, length, leb, ◌==◌, str_eq, get_or, set, map, replicate, uuid_len, if◌then◌else◌,
}
use legion_voice_mixer.Prelude.Int.{ℤ}
use legion_voice_mixer.Glib.{is_some}
use legion_voice_mixer.Positions.{slots, store_max, PosEntry, PosBatch}

-- `slv_pos_sim`
pub record Sim : Type 0 where
  pub e : PosEntry
  pub recv_us : ℤ

abbrev pub Slots : Type 0
Slots = List (Option Sim)

-- `slv_pos_store`
pub record Store : Type 0 where
  pub slot : Slots
  pub count : ℕ

-- `slv_pos_hash`: FNV-1a on 32 bits, after `h`.
unfoldable pub hash_from : ℕ → CString → ℕ
hash_from h [] = h
hash_from h (c ∷ cs) = hash_from (bit_xor h c * 16777619 % 2 ^ 32) cs

unfoldable pub pos_hash : CString → ℕ
unfolding hash_from
pos_hash = hash_from 2166136261

-- The slot of round `i`: `(h + i) & (SLV_POS_SLOTS - 1)` on 32 bits, the number of slots a power of two.
unfoldable pub place : ℕ → ℕ → ℕ
place h i = (h + i) % 2 ^ 32 % slots

-- Does the probe stop here: at an empty slot, or at the name's own?
unfoldable pub stops : CString → Option Sim → Bool
stops uuid none = true
stops uuid (some s) = str_eq s.e.uuid uuid

-- The probe from round `i` on, with `left` rounds to go.
unfoldable pub probe_from : Slots → CString → ℕ → ℕ → ℕ → Option ℕ
unfolding place stops
probe_from table uuid h i zero = none
probe_from table uuid h i (suc left) =
    let rest = probe_from table uuid h (suc i) left in
    if stops uuid (get_or table (place h i) none) then some (place h i) else rest

-- `slv_pos_probe`: the index of the slot, `none` for NULL.
unfoldable pub probe : Slots → CString → Option ℕ
unfolding probe_from pos_hash
probe table uuid = probe_from table uuid (pos_hash uuid) 0 slots

-- `slv_pos_store_clear`
unfoldable pub cleared : Store
cleared = record { slot = replicate slots none; count = 0 }

-- An entry stored in slot `i`, which is empty or the name's own.
unfoldable pub store_at : ℕ → PosEntry → ℤ → Store → Store
store_at i e now_us st = record {
  slot = set st.slot i (some (record { e = e; recv_us = now_us }));
  count = if is_some (get_or st.slot i none) then st.count else st.count + 1;
}

-- The store, the entries stored or updated so far, and those dropped.
pub record Applied : Type 0 where
  pub store : Store
  pub stored : ℕ
  pub dropped : ℕ

-- One round of the loop over the entries.
unfoldable pub apply_entry : PosEntry → ℤ → Applied → Applied
unfolding probe store_at
apply_entry e now_us a = elim (probe a.store.slot e.uuid) [
  | none ↦ record a { dropped = a.dropped + 1 }
  | some i ↦
      if not (is_some (get_or a.store.slot i none)) && leb store_max a.store.count
      then record a { dropped = a.dropped + 1 }
      else record a { store = store_at i e now_us a.store; stored = a.stored + 1 }
]

unfoldable pub apply_entries : List PosEntry → ℤ → Applied → Applied
unfolding apply_entry
apply_entries [] now_us a = a
apply_entries (e ∷ es) now_us a = apply_entries es now_us (apply_entry e now_us a)

-- `slv_pos_store_apply`
unfoldable pub store_apply : Store → PosBatch → ℤ → Applied
unfolding apply_entries cleared
store_apply st b now_us =
    apply_entries b.entries now_us
      (record { store = if b.full then cleared else st; stored = 0; dropped = 0 })

unfoldable pub lower_byte : ℕ → ℕ
lower_byte c = if leb b'A' c && leb c b'Z' then c - b'A' + b'a' else c

-- The sim point at a probed slot.
abbrev pub point_at : Slots → Option ℕ → Option Sim
point_at table none = none
point_at table (some i) = get_or table i none

-- `slv_pos_store_find` at a string that is not NULL.
unfoldable pub store_find : Store → CString → Option Sim
unfolding probe lower_byte
store_find st uuid =
    if length uuid == 0 || leb uuid_len (length uuid)
    then none
    else point_at st.slot (probe st.slot (map lower_byte uuid))
