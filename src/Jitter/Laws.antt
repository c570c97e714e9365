-- ===== src/Jitter/Laws.antt =====
-- What the jitter buffer plays.
use legion_voice_mixer.Prelude.{
  choice, ℕ, zero, suc, ◌%◌, ◌^◌, ◌≤◌, ◌<◌, ◌≡◌, ◌≢◌, ◌⊎◌, refl, ap, true, not, List, [], ◌∷◌,
  arith, length, length-set, get_or, set,
}
use legion_voice_mixer.Prelude.Int.{pos, ltb_ℤ}
use legion_voice_mixer.Jitter.{
  jb_slots, jb_lag, jb_max_lead, payload_max, Slot, Jitter, no_slot, sub16, diff16, jb_insert,
  store_payload, Pulled, pulled_silence, take_slot, resync, pull_primed, jb_pull,
}

-- The buffer has all its slots, and its numbers are 16 bits wide.
pub record IsValid (jb : Jitter) : Type 0 where
  pub all_slots : length jb.slots ≡ jb_slots
  pub first_fits : jb.first_seq < 2 ^ 16
  pub newest_fits : jb.newest < 2 ^ 16
  pub next_fits : jb.next_seq < 2 ^ 16

pub jb_insert-IsValid :
    (jb : Jitter) (seq : ℕ) (payload : List ℕ)
    → seq < 2 ^ 16
    → IsValid jb
    → IsValid (jb_insert jb seq payload)
unfolding jb_insert store_payload
jb_insert-IsValid jb seq payload h v =
    let s = length-set jb.slots (seq % jb_slots) (record { seq = seq; payload = payload }) in
    record {
      all_slots = ground (arith, s, v.all_slots);
      first_fits = ground (arith, h, v.first_fits);
      newest_fits = ground (arith, h, v.newest_fits);
      next_fits = ground (arith, v.next_fits);
    }

pub get_or-set_self {ℓ} :
    {A : Type ℓ} (xs : List A) (i : ℕ) (v d : A) → i < length xs → get_or (set xs i v) i d ≡ v
get_or-set_self [] i v d h = absurd (omega arith)
get_or-set_self (x ∷ xs) zero v d h = refl
get_or-set_self (x ∷ xs) (suc i) v d h = get_or-set_self xs i v d (omega arith)

pub get_or-set_ne {ℓ} :
    {A : Type ℓ} (xs : List A) (i j : ℕ) (v d : A) → i ≢ j → get_or (set xs i v) j d ≡ get_or xs j d
get_or-set_ne [] i j v d h = refl
get_or-set_ne (x ∷ xs) zero zero v d h = absurd (h refl)
get_or-set_ne (x ∷ xs) zero (suc j) v d h = refl
get_or-set_ne (x ∷ xs) (suc i) zero v d h = refl
get_or-set_ne (x ∷ xs) (suc i) (suc j) v d h = get_or-set_ne xs i j v d (λ e. h (ap suc e))

-- The slot that a number's packet stands in.
abbrev pub slot_of : Jitter → ℕ → Slot
slot_of jb seq = get_or jb.slots (seq % jb_slots) no_slot

-- A packet waits for the cursor when its slot holds its payload under its number.
abbrev pub Holds : Jitter → ℕ → List ℕ → Type 0
Holds jb seq payload = slot_of jb seq ≡ record { seq = seq; payload = payload }

-- A packet that is inserted waits in its slot, and every packet of another slot waits as before.
pub jb_insert-Holds :
    (jb : Jitter) (seq other : ℕ) (payload : List ℕ)
    → IsValid jb
    → 0 < length payload
    → length payload ≤ payload_max
    → Holds (jb_insert jb seq payload) seq payload
      × ((seq % jb_slots ≡ other % jb_slots)
          ⊎ (slot_of (jb_insert jb seq payload) other ≡ slot_of jb other))
unfolding jb_insert store_payload
jb_insert-Holds jb seq other payload v some_bytes fits =
    let s : Slot = record { seq = seq; payload = payload } in
    ground (
      arith,
      v.all_slots,
      get_or-set_self jb.slots (seq % jb_slots) s no_slot,
      get_or-set_ne jb.slots (seq % jb_slots) (other % jb_slots) s no_slot,
    )

take_slot-IsValid : (jb : Jitter) → IsValid jb → IsValid (take_slot jb).1
unfolding take_slot
take_slot-IsValid jb v =
    let i = jb.next_seq % jb_slots in
    let s =
      length-set jb.slots i (record { seq = (get_or jb.slots i no_slot).seq; payload = [] }) in
    record {
      all_slots = ground (arith, s, v.all_slots);
      first_fits = ground (arith, v.first_fits);
      newest_fits = ground (arith, v.newest_fits);
      next_fits = ground (arith, v.next_fits);
    }

abbrev LeavesValid : Pulled × Jitter → Type 0
LeavesValid x = IsValid x.1

resync-IsValid : (jb : Jitter) → IsValid jb → IsValid (resync jb)
unfolding resync
resync-IsValid jb v =
    choice IsValid (ltb_ℤ (pos jb_max_lead) (diff16 jb.newest jb.next_seq))
      (record jb { next_seq = sub16 jb.newest jb_lag }) jb
      (record {
        all_slots = v.all_slots;
        first_fits = v.first_fits;
        newest_fits = v.newest_fits;
        next_fits = omega arith;
      })
      v

pull_primed-IsValid : (jb : Jitter) → IsValid jb → IsValid (pull_primed jb).1
unfolding pull_primed
pull_primed-IsValid jb v =
    choice LeavesValid (ltb_ℤ (diff16 jb.newest jb.next_seq) (pos 0)) (pulled_silence, jb)
      (take_slot (resync jb)) v (take_slot-IsValid (resync jb) (resync-IsValid jb v))

-- What a pull leaves is sound, whatever it played.
pub jb_pull-IsValid : (jb : Jitter) → IsValid jb → IsValid (jb_pull jb).1
unfolding jb_pull
jb_pull-IsValid jb v =
    let started : Jitter = record jb { primed = true; next_seq = jb.first_seq } in
    let w : IsValid started = record {
      all_slots = v.all_slots;
      first_fits = v.first_fits;
      newest_fits = v.newest_fits;
      next_fits = v.first_fits;
    } in
    choice LeavesValid (not jb.have_first) (pulled_silence, jb) _ v
      (choice LeavesValid jb.primed (pull_primed jb) _ (pull_primed-IsValid jb v) (
        choice LeavesValid (ltb_ℤ (diff16 jb.newest jb.first_seq) (pos jb_lag)) (pulled_silence, jb)
          (pull_primed started) v (pull_primed-IsValid started w)))
