-- ===== src/Jitter/Playout.antt =====
-- A packet that arrives in time is played when its turn comes.
use legion_voice_mixer.Prelude.{
  ℕ, zero, suc, ◌+◌, ◌%◌, ◌^◌, ◌≤◌, ◌<◌, ◌≡◌, ◌≢◌, ap, sym, ◌∙◌, ◌-◌, subst, true, List, [], get_or,
  arith, length,
}
use legion_voice_mixer.Prelude.Int.{pos, negsuc, ◌≤ℤ◌}
use legion_voice_mixer.Jitter.{
  jb_slots, Jitter, no_slot, add16, sub16, diff16, payload_max, pulled_frame, take_slot, resync,
  pull_primed, jb_pull, jb_insert, store_payload,
}
use legion_voice_mixer.Jitter.Laws.{
  IsValid, slot_of, Holds, get_or-set_ne, jb_insert-Holds, jb_insert-IsValid, jb_pull-IsValid,
}

-- A buffer that plays, whose cursor is no more than 16 numbers behind the newest packet.
record IsPlaying (jb : Jitter) (lead : ℕ) : Type 0 where
  valid : IsValid jb
  begun : jb.have_first ≡ true
  filled : jb.primed ≡ true
  ahead : sub16 jb.newest jb.next_seq ≡ lead
  near : lead ≤ 16

other_slot : (n m : ℕ) → n < 2 ^ 16 → suc m ≤ 16 → n % jb_slots ≢ add16 n (suc m) % jb_slots
other_slot n m h k e = omega arith

abbrev Moves : Jitter → Jitter → Type 0
Moves jb jb' =
    (jb'.have_first ≡ true)
    × (jb'.primed ≡ true)
    × (jb'.newest ≡ jb.newest)
    × (jb'.next_seq ≡ add16 jb.next_seq 1)

jb_pull-Moves : (jb : Jitter) (lead : ℕ) → IsPlaying jb lead → Moves jb (jb_pull jb).1
unfolding jb_pull pull_primed resync take_slot
jb_pull-Moves jb lead p = ground (arith, p.begun, p.filled, p.ahead, p.near)

jb_pull_kept :
    (jb : Jitter) (lead m : ℕ)
    → IsPlaying jb lead
    → suc m ≤ 16
    → slot_of (jb_pull jb).1 (add16 jb.next_seq (suc m)) ≡ slot_of jb (add16 jb.next_seq (suc m))
unfolding jb_pull pull_primed resync take_slot
jb_pull_kept jb lead m p h =
    let i = jb.next_seq % jb_slots in
    let j = add16 jb.next_seq (suc m) % jb_slots in
    ground (
      arith,
      p.begun,
      p.filled,
      p.ahead,
      p.near,
      get_or-set_ne jb.slots i j (record { seq = (get_or jb.slots i no_slot).seq; payload = [] })
          no_slot (other_slot jb.next_seq m p.valid.next_fits h),
    )

jb_pull_now :
    (jb : Jitter) (lead : ℕ) (payload : List ℕ)
    → IsPlaying jb lead
    → 0 < length payload
    → Holds jb jb.next_seq payload
    → (jb_pull jb).0 ≡ pulled_frame payload
unfolding jb_pull pull_primed resync take_slot
jb_pull_now jb lead payload p some_bytes holds =
    ground (arith, p.begun, p.filled, p.ahead, p.near, holds, some_bytes)

-- The buffer after that many pulls.
abbrev pub pulls : ℕ → Jitter → Jitter
pulls zero jb = jb
pulls (suc m) jb = pulls m (jb_pull jb).1

jb_pull-IsPlaying :
    (jb : Jitter) (lead : ℕ) → IsPlaying jb (suc lead) → IsPlaying (jb_pull jb).1 lead
jb_pull-IsPlaying jb lead p =
    let (begun, filled, newest, next) = jb_pull-Moves jb (suc lead) p in
    record {
      valid = jb_pull-IsValid jb p.valid;
      begun = begun;
      filled = filled;
      ahead = rw (newest, next) (omega (arith, p.ahead, p.valid.newest_fits, p.valid.next_fits));
      near = omega (arith, p.near);
    }

add16_step : (n m : ℕ) → add16 (add16 n 1) m ≡ add16 n (suc m)
add16_step n m = omega arith

pulls-play :
    (m lead : ℕ) (jb : Jitter) (payload : List ℕ)
    → IsPlaying jb (m + lead)
    → 0 < length payload
    → Holds jb (add16 jb.next_seq m) payload
    → (jb_pull (pulls m jb)).0 ≡ pulled_frame payload
pulls-play zero lead jb payload p some_bytes holds =
    jb_pull_now jb (0 + lead) payload p some_bytes
      (subst (λ n. Holds jb n payload) (omega (arith, p.valid.next_fits)) holds)
pulls-play (suc m) lead jb payload p some_bytes holds =
    let q : IsPlaying jb (suc (m + lead)) = subst (IsPlaying jb) (omega arith) p in
    let (_, _, _, next) = jb_pull-Moves jb (suc (m + lead)) q in
    pulls-play m lead (jb_pull jb).1 payload (jb_pull-IsPlaying jb (m + lead) q) some_bytes (
      subst (λ n. Holds (jb_pull jb).1 n payload)
        (sym (ap (λ n. add16 n m) next ∙ add16_step jb.next_seq m))
        (jb_pull_kept jb (suc (m + lead)) m q (omega (arith, p.near)) ∙ holds))

jb_insert_lead :
    (jb : Jitter) (m : ℕ) (payload : List ℕ)
    → IsValid jb
    → jb.have_first ≡ true
    → negsuc 0 ≤ℤ diff16 jb.newest jb.next_seq
    → diff16 jb.newest jb.next_seq ≤ℤ pos 16
    → m ≤ 16
    → ((jb_insert jb (add16 jb.next_seq m) payload).have_first ≡ true)
      × ((jb_insert jb (add16 jb.next_seq m) payload).primed ≡ jb.primed)
      × ((jb_insert jb (add16 jb.next_seq m) payload).next_seq ≡ jb.next_seq)
      × (m ≤ sub16 (jb_insert jb (add16 jb.next_seq m) payload).newest jb.next_seq)
      × (sub16 (jb_insert jb (add16 jb.next_seq m) payload).newest jb.next_seq ≤ 16)
unfolding jb_insert store_payload
jb_insert_lead jb m payload v begun due near turn =
    ground (arith, v.newest_fits, v.next_fits, begun, due, near, turn)

-- A packet of 1 to 1500 bytes that comes for the cursor's number or one of the 16 after it is played when
-- the pulls reach its number, whatever its place among the packets that are there: to a sound buffer that
-- has begun and filled its cushion, and whose cursor is at most 16 numbers behind the newest packet and at
-- most one past it.
pub jb_insert-plays :
    (jb : Jitter) (m : ℕ) (payload : List ℕ)
    → IsValid jb
    → jb.have_first ≡ true
    → jb.primed ≡ true
    → negsuc 0 ≤ℤ diff16 jb.newest jb.next_seq
    → diff16 jb.newest jb.next_seq ≤ℤ pos 16
    → m ≤ 16
    → 0 < length payload
    → length payload ≤ payload_max
    → (jb_pull (pulls m (jb_insert jb (add16 jb.next_seq m) payload))).0 ≡ pulled_frame payload
jb_insert-plays jb m payload v begun primed due near turn some_bytes fits =
    let after = jb_insert jb (add16 jb.next_seq m) payload in
    let (begun', filled, next, late, soon) = jb_insert_lead jb m payload v begun due near turn in
    let p : IsPlaying after (m + (sub16 after.newest jb.next_seq - m)) = record {
      valid = jb_insert-IsValid jb (add16 jb.next_seq m) payload (omega arith) v;
      begun = begun';
      filled = filled ∙ primed;
      ahead = rw next (omega (arith, late));
      near = omega (arith, late, soon);
    } in
    let (held, _) = jb_insert-Holds jb (add16 jb.next_seq m) 0 payload v some_bytes fits in
    pulls-play m (sub16 after.newest jb.next_seq - m) after payload p some_bytes
      (subst (λ n. Holds after (add16 n m) payload) (sym next) held)
