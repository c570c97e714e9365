-- ===== src/Jitter.antt =====
-- The jitter buffer of a session in src/janus_slvoice.c: `janus_slvoice_jb_insert` and
-- `janus_slvoice_jb_pull`. Sequence numbers are `uint16_t` and wrap; their differences are read as
-- `int16_t`. A slot is its sequence number and its payload, the empty list where `jb_len` is 0; the buffer
-- is allocated (`jb` is not NULL).
pub mod Laws
pub mod Playout
use legion_voice_mixer.Prelude.{
  ℕ, ◌+◌, ◌-◌, ◌*◌, ◌%◌, ◌^◌, Bool, true, false, not, ◌&&◌, ◌||◌, List, [], ◌∷◌, CString, ltb, leb,
  ◌==◌, length, get_or, set, if◌then◌else◌,
}
use legion_voice_mixer.Prelude.Int.{ℤ, pos, negsuc, ltb_ℤ}

abbrev pub jb_slots : ℕ
jb_slots = 128

abbrev pub jb_lag : ℕ
jb_lag = 3

abbrev pub jb_max_lead : ℕ
jb_max_lead = 16

abbrev pub payload_max : ℕ
payload_max = 1500

-- `jb_seq[slot]`, and the first `jb_len[slot]` bytes of the slot.
pub record Slot : Type 0 where
  pub seq : ℕ
  pub payload : List ℕ

pub record Jitter : Type 0 where
  pub slots : List Slot
  pub have_first : Bool
  pub primed : Bool
  pub first_seq : ℕ
  pub newest : ℕ
  pub next_seq : ℕ

abbrev pub no_slot : Slot
no_slot = record { seq = 0; payload = [] }

-- `(uint16_t)(a + b)` and `(uint16_t)(a - b)`, for numbers below 2^16.
abbrev pub add16 : ℕ → ℕ → ℕ
add16 a b = (a + b) % 2 ^ 16

abbrev pub sub16 : ℕ → ℕ → ℕ
sub16 a b = (a + 2 ^ 16 - b) % 2 ^ 16

-- `(int16_t)(a - b)`
abbrev pub diff16 : ℕ → ℕ → ℤ
diff16 a b = let d = sub16 a b in if ltb d (2 ^ 15) then pos d else negsuc (2 ^ 16 - d - 1)

abbrev pub is_ahead : ℕ → ℕ → Bool
is_ahead a b = ltb_ℤ (pos 0) (diff16 a b)

-- A payload that fits is stored in the slot of its number, over what is there.
unfoldable pub store_payload : Jitter → ℕ → List ℕ → Jitter
store_payload jb seq payload =
    if ltb 0 (length payload) && leb (length payload) payload_max
    then record jb {
      slots = set jb.slots (seq % jb_slots) (record { seq = seq; payload = payload });
    }
    else jb

-- `janus_slvoice_jb_insert`
unfoldable pub jb_insert : Jitter → ℕ → List ℕ → Jitter
unfolding store_payload
jb_insert jb seq payload =
    let stored = store_payload jb seq payload in
    if not jb.have_first
    then record stored { have_first = true; first_seq = seq; newest = seq }
    else if is_ahead seq jb.newest
    then record stored { newest = seq }
    else stored

-- What a pull gives: nothing, a frame to conceal, or a payload.
pub data Pulled : Type 0 where
  pulled_silence pulled_plc : Pulled
  pulled_frame : List ℕ → Pulled

-- The slot at the cursor, consumed if it is the cursor's; the cursor moves on either way.
unfoldable pub take_slot : Jitter → Pulled × Jitter
take_slot jb =
    let i = jb.next_seq % jb_slots in
    let slot = get_or jb.slots i no_slot in
    let moved = record jb { next_seq = add16 jb.next_seq 1 } in
    if ltb 0 (length slot.payload) && slot.seq == jb.next_seq
    then (
      pulled_frame slot.payload,
      record moved { slots = set jb.slots i (record slot { payload = [] }) },
    )
    else (pulled_plc, moved)

-- A cursor that has fallen far behind is set anew.
unfoldable pub resync : Jitter → Jitter
resync jb =
    if ltb_ℤ (pos jb_max_lead) (diff16 jb.newest jb.next_seq)
    then record jb { next_seq = sub16 jb.newest jb_lag }
    else jb

-- The pull, once the cushion is filled.
unfoldable pub pull_primed : Jitter → Pulled × Jitter
unfolding resync take_slot
pull_primed jb =
    if ltb_ℤ (diff16 jb.newest jb.next_seq) (pos 0)
    then (pulled_silence, jb)
    else take_slot (resync jb)

-- `janus_slvoice_jb_pull`
unfoldable pub jb_pull : Jitter → Pulled × Jitter
unfolding pull_primed
jb_pull jb =
    if not jb.have_first
    then (pulled_silence, jb)
    else if jb.primed
    then pull_primed jb
    else if ltb_ℤ (diff16 jb.newest jb.first_seq) (pos jb_lag)
    then (pulled_silence, jb)
    else pull_primed (record jb { primed = true; next_seq = jb.first_seq })
