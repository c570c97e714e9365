-- ===== src/Positions/Handle.antt =====
-- The positions' arm of the admin messages, `janus_slvoice_handle_peer_pos` of src/janus_slvoice.c. The
-- room's lock is held across the check and the store, so a request is one step. The reply's text and the
-- logs are left out: a reply is its outcome with the numbers that it carries.
use legion_voice_mixer.Prelude.{
  ℕ, ◌+◌, ◌%◌, ◌^◌, Bool, true, not, ◌&&◌, List, Option, none, some, ltb, ◌==◌, if◌then◌else◌,
}
use legion_voice_mixer.Prelude.Int.{ℤ, pos_part, leb_ℤ}
use legion_voice_mixer.Json.{Json}
use legion_voice_mixer.Authority.{authority_stale}
use legion_voice_mixer.Positions.{Status, pos_ok, pos_toobig, PosBatch}
use legion_voice_mixer.Positions.Parse.{posbatch_parse}
use legion_voice_mixer.Positions.Store.{Store, cleared, Applied, store_apply}

-- Counters of 64 bits.
abbrev pub add64 : ℕ → ℕ → ℕ
add64 n k = (n + k) % 2 ^ 64

-- The fields of `slv_pos_room_stats` that a request reads or writes.
pub record RequestStats : Type 0 where
  pub have_batch : Bool
  pub last_seq : ℤ
  pub last_us : ℤ
  pub epoch : ℕ
  pub batches : ℕ
  pub full_batches : ℕ
  pub entries_applied : ℕ
  pub entries_skipped : ℕ
  pub entries_dropped_full : ℕ
  pub rejected_stale_epoch : ℕ
  pub rejected_stale_seq : ℕ
  pub enforce_requests : ℕ

-- The fields of `janus_slvoice_room` that a request reads or writes: it only reads the authority's.
pub record PosRoom : Type 0 where
  pub pos_store : Store
  pub pos_stats : RequestStats
  pub vis_auth_epoch : ℕ
  pub vis_auth_last_us : ℤ

pub data Refusal : Type 0 where
  stale_epoch stale_seq : Refusal

abbrev pub epoch_of : PosBatch → ℕ
epoch_of b = if b.has_epoch then b.room_epoch else 0

-- Why a request is refused: an older instance while the newer authority is fresh, or a late or repeated
-- request of the same instance.
unfoldable pub refusal : ℤ → PosBatch → ℤ → PosRoom → Option Refusal
unfolding authority_stale
refusal stale_us b now room =
    if b.has_epoch
      && (not (room.vis_auth_epoch == 0)
          && (ltb b.room_epoch room.vis_auth_epoch
              && not (authority_stale room.vis_auth_last_us now stale_us)))
    then some stale_epoch
    else if room.pos_stats.have_batch
        && (epoch_of b == room.pos_stats.epoch && leb_ℤ b.seq room.pos_stats.last_seq)
    then some stale_seq
    else none

abbrev pub count_refusal : Refusal → RequestStats → RequestStats
count_refusal stale_epoch rs = record rs { rejected_stale_epoch = add64 rs.rejected_stale_epoch 1 }
count_refusal stale_seq rs = record rs { rejected_stale_seq = add64 rs.rejected_stale_seq 1 }

-- The store that a request is applied to: another instance's points replace the old one's.
unfoldable pub base_store : PosBatch → PosRoom → Store
unfolding cleared
base_store b room =
    if room.pos_stats.have_batch && not (epoch_of b == room.pos_stats.epoch)
    then cleared
    else room.pos_store

abbrev pub count_request : PosBatch → ℤ → Applied → RequestStats → RequestStats
count_request b now a rs = record rs {
  have_batch = true;
  epoch = epoch_of b;
  last_seq = b.seq;
  last_us = now;
  batches = add64 rs.batches 1;
  full_batches = if b.full then add64 rs.full_batches 1 else rs.full_batches;
  enforce_requests =
      if b.enforce_requested then add64 rs.enforce_requests 1 else rs.enforce_requests;
  entries_applied = add64 rs.entries_applied a.stored;
  entries_skipped = add64 rs.entries_skipped b.n_skipped;
  entries_dropped_full = add64 rs.entries_dropped_full a.dropped;
}

unfoldable pub accept : PosBatch → ℤ → PosRoom → PosRoom
unfolding base_store store_apply
accept b now room =
    let a = store_apply (base_store b room) b now in
    record room { pos_store = a.store; pos_stats = count_request b now a room.pos_stats }

-- What a request that parses does to its room: the refusal if there is one, and the room.
unfoldable pub handle_parsed : ℤ → PosBatch → ℤ → PosRoom → Option Refusal × PosRoom
unfolding refusal accept
handle_parsed stale_us b now room = elim (refusal stale_us b now room) [
  | some why ↦ (some why, record room { pos_stats = count_refusal why room.pos_stats })
  | none ↦ (none, accept b now room)
]

-- The counters of the process, 32-bit integers.
pub record Totals : Type 0 where
  pub malformed : ℕ
  pub toobig : ℕ
  pub unknown_room : ℕ

abbrev pub add32 : ℕ → ℕ
add32 n = (n + 1) % 2 ^ 32

pub data Reply : Type 0 where
  rejected : Status → Reply
  no_room : Reply
  refused : Refusal → Reply
  applied : PosBatch → Reply

-- The process's rooms by their ids, and its counters.
pub record Process : Type 0 where
  pub rooms : ℕ → Option PosRoom
  pub totals : Totals

abbrev pub with_room : ℕ → PosRoom → (ℕ → Option PosRoom) → ℕ → Option PosRoom
with_room id room rooms k = if id == k then some room else rooms k

abbrev pub reply_of : PosBatch → Option Refusal → Reply
reply_of b none = applied b
reply_of b (some why) = refused why

unfoldable pub handle_room : ℤ → PosBatch → ℤ → Process → Reply × Process
unfolding handle_parsed
handle_room stale_us b now p = elim (p.rooms (pos_part b.room)) [
  | none ↦ (
    no_room,
    record p { totals = record p.totals { unknown_room = add32 p.totals.unknown_room } },
  )
  | some room ↦
      let r = handle_parsed stale_us b now room in
      (reply_of b r.0, record p { rooms = with_room (pos_part b.room) r.1 p.rooms })
]

abbrev pub count_rejected : Status → Totals → Totals
count_rejected pos_toobig t = record t { toobig = add32 t.toobig }
count_rejected st t = record t { malformed = add32 t.malformed }

unfoldable pub handle_result : ℤ → Status × PosBatch → ℤ → Process → Reply × Process
unfolding handle_room
handle_result stale_us (pos_ok, b) now p = handle_room stale_us b now p
handle_result stale_us (st, b) now p =
    (rejected st, record p { totals = count_rejected st p.totals })

module _ (json : Json) where
  -- `janus_slvoice_handle_peer_pos` at the text of its message.
  unfoldable pub handle_peer_pos : Bool → ℤ → Option (List ℕ) → ℤ → Process → Reply × Process
  unfolding posbatch_parse handle_result
  handle_peer_pos alloc stale_us buf now p =
      handle_result stale_us (posbatch_parse json alloc buf) now p
