-- ===== src/Joincap.antt =====
-- src/joincap.c and src/joincap.h: the join capability that the sim issues. This module has the
-- parsed capability and the checks of its context, time and authority; `Parse` reads the text and
-- verifies its signature, and `Nonces` is the replay store.
pub mod Parse
pub mod Nonces
pub mod Checks
pub mod Signed
pub mod Mint
pub mod Replay
pub mod Window
pub mod Gate
pub mod Refusals
pub mod Admission
use legion_voice_mixer.Prelude.{
  ℕ, Bool, true, false, not, ◌&&◌, ◌||◌, Option, none, some, CString, str_eq, ltb, ◌==◌,
  if◌then◌else◌,
}
use legion_voice_mixer.Prelude.Int.{ℤ, pos, ◌+ℤ◌, ◌-ℤ◌, ltb_ℤ, eqb_ℤ}

-- `slv_joincap_verdict`
pub data Verdict : Type 0 where
  cap_ok cap_missing cap_malformed cap_bad_signature cap_wrong_agent cap_wrong_session : Verdict
  cap_wrong_room cap_expired cap_replayed cap_store_full cap_stale_generation : Verdict

-- `slv_joincap`: `int64_t` room and times, `uint64_t` epoch, `uint32_t` generation.
pub record Joincap : Type 0 where
  pub agent : CString
  pub session : CString
  pub room : ℤ
  pub epoch : ℕ
  pub generation : ℕ
  pub iat : ℤ
  pub exp : ℤ
  pub nonce : CString

-- Is the string not NULL, and the one named?
abbrev pub is_string : Option CString → CString → Bool
is_string none s = false
is_string (some t) s = str_eq s t

-- `slv_joincap_check`, for a capability that is not NULL. Its sums are exact; in C they are undefined
-- where a time is within the skew of a limit of `int64_t`.
unfoldable pub joincap_check : Joincap → Option CString → Option CString → ℤ → ℤ → ℤ → Verdict
unfolding ◌+ℤ◌ ◌-ℤ◌
joincap_check c display session_id room now_s skew_s =
    if not (is_string display c.agent)
    then cap_wrong_agent
    else if not (is_string session_id c.session)
    then cap_wrong_session
    else if not (eqb_ℤ c.room room)
    then cap_wrong_room
    else if ltb_ℤ (c.exp +ℤ skew_s) now_s || ltb_ℤ now_s (c.iat -ℤ skew_s)
    then cap_expired
    else cap_ok

-- `slv_joincap_used_skew`: the offset, when the tolerance was needed.
unfoldable pub used_skew : Joincap → ℤ → Option ℤ
used_skew c now_s =
    if ltb_ℤ c.exp now_s
    then some (now_s -ℤ c.exp)
    else if ltb_ℤ now_s c.iat
    then some (now_s -ℤ c.iat)
    else none

-- `slv_joincap_generation`: the generation never refuses.
unfoldable pub joincap_generation : Joincap → ℕ → ℕ → Verdict
joincap_generation c auth_epoch policy_gen =
    if not (c.epoch == 0) && ltb c.epoch auth_epoch then cap_stale_generation else cap_ok

-- `slv_joincap_gen_note`
pub data GenNote : Type 0 where
  gen_match gen_epoch_ahead gen_no_epoch gen_ahead gen_behind : GenNote

-- `slv_joincap_generation_note`
unfoldable pub generation_note : Joincap → ℕ → ℕ → GenNote
generation_note c auth_epoch policy_gen =
    if not (c.epoch == 0) && ltb c.epoch auth_epoch
    then gen_match
    else if c.epoch == 0 && not (auth_epoch == 0)
    then gen_no_epoch
    else if ltb auth_epoch c.epoch
    then gen_epoch_ahead
    else if ltb policy_gen c.generation
    then gen_ahead
    else if ltb c.generation policy_gen
    then gen_behind
    else gen_match
