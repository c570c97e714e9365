-- ===== src/Joincap/Checks.antt =====
-- The context, time and authority checks, each against what it promises.
use legion_voice_mixer.Prelude.{
  ℕ, ◌<◌, ◌≡◌, ◌≢◌, ◌↔◌, ◌⊎◌, inl, inr, true, Option, none, some, CString, str_eq_iff, arith,
}
use legion_voice_mixer.Prelude.Int.{ℤ, pos, ◌+ℤ◌, ◌-ℤ◌, ◌≤ℤ◌, int_laws}
use legion_voice_mixer.Joincap.{
  cap_ok, cap_stale_generation, Joincap, is_string, joincap_check, used_skew, joincap_generation,
  gen_match, generation_note,
}

is_string_iff : (t : Option CString) (s : CString) → (is_string t s ≡ true) ↔ (t ≡ some s)
is_string_iff none s = ground arith
is_string_iff (some t) s = ground (arith, str_eq_iff s t)

-- A capability passes the context check exactly when it names the join's agent, session and room and the
-- clock stands within its window, widened by the skew at both ends.
pub joincap_check-ok_iff :
    (c : Joincap) (display session_id : Option CString) (room now_s skew_s : ℤ)
    → (joincap_check c display session_id room now_s skew_s ≡ cap_ok) ↔ (
        (display ≡ some c.agent)
        × (session_id ≡ some c.session)
        × (c.room ≡ room)
        × (now_s ≤ℤ c.exp +ℤ skew_s)
        × (c.iat -ℤ skew_s ≤ℤ now_s))
unfolding joincap_check ◌+ℤ◌ ◌-ℤ◌
joincap_check-ok_iff c display session_id room now_s skew_s =
    ground (arith, is_string_iff display c.agent, is_string_iff session_id c.session)

used_skew_cases :
    (c : Joincap) (now_s : ℤ) {offset : ℤ}
    → used_skew c now_s ≡ some offset
    → ((offset ≡ now_s -ℤ c.exp) × (c.exp ≤ℤ now_s))
      ⊎ ((offset ≡ now_s -ℤ c.iat) × (now_s ≤ℤ c.iat))
unfolding used_skew
used_skew_cases c now_s e = ground arith

used_skew-none :
    (c : Joincap) (now_s : ℤ) → (used_skew c now_s ≡ none) ↔ ((c.iat ≤ℤ now_s) × (now_s ≤ℤ c.exp))
unfolding used_skew
used_skew-none c now_s = ground arith

offset_within :
    (c : Joincap) (now_s skew_s offset : ℤ)
    → now_s ≤ℤ c.exp +ℤ skew_s
    → c.iat -ℤ skew_s ≤ℤ now_s
    → ((offset ≡ now_s -ℤ c.exp) × (c.exp ≤ℤ now_s))
      ⊎ ((offset ≡ now_s -ℤ c.iat) × (now_s ≤ℤ c.iat))
    → pos 0 ≤ℤ skew_s
    → (offset ≤ℤ skew_s) × (pos 0 ≤ℤ offset +ℤ skew_s)
offset_within c now_s skew_s offset late early (inl (e, h)) k = rw e (omega int_laws)
offset_within c now_s skew_s offset late early (inr (e, h)) k = rw e (omega int_laws)

-- When a capability that passed the check is reported to have needed the tolerance, the offset is not zero and
-- no more than the skew in either direction, where the skew is not negative; and the clock stands outside
-- the capability's own window.
pub used_skew_within :
    (c : Joincap) (display session_id : Option CString) (room now_s skew_s offset : ℤ)
    → joincap_check c display session_id room now_s skew_s ≡ cap_ok
    → pos 0 ≤ℤ skew_s
    → used_skew c now_s ≡ some offset
    → (offset ≤ℤ skew_s) × (pos 0 ≤ℤ offset +ℤ skew_s) × ¬ ((c.iat ≤ℤ now_s) × (now_s ≤ℤ c.exp))
used_skew_within c display session_id room now_s skew_s offset ok k e =
    let (_, _, _, late, early) =
      (joincap_check-ok_iff c display session_id room now_s skew_s).0 ok in
    let w = offset_within c now_s skew_s offset late early (used_skew_cases c now_s e) k in
    (w.0, w.1, λ inside. ground (arith, e, (used_skew-none c now_s).1 inside))

-- Only the epoch refuses: a capability is stale exactly when it carries an epoch, and that epoch is below the
-- adopted one. It is accepted with the note "match" exactly when both its numbers are the room's.
pub generation_lem :
    (c : Joincap) (auth_epoch policy_gen : ℕ)
    → ((joincap_generation c auth_epoch policy_gen ≡ cap_stale_generation)
        ↔ ((c.epoch ≢ 0) × (c.epoch < auth_epoch)))
      × (((joincap_generation c auth_epoch policy_gen ≡ cap_ok)
            × (generation_note c auth_epoch policy_gen ≡ gen_match))
          ↔ ((c.epoch ≡ auth_epoch) × (c.generation ≡ policy_gen)))
unfolding joincap_generation generation_note
generation_lem c auth_epoch policy_gen = ground arith
