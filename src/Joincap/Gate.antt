-- ===== src/Joincap/Gate.antt =====
-- The gate of a join: `janus_slvoice_joincap_verify` of src/janus_slvoice.c, and the arm of its handler
-- that decides from the verdict. The counters are process-wide `gint`s, kept as their 32 bits; logging is
-- left out. A missing text is `none` or empty, and a missing key is `none`.
use legion_voice_mixer.Prelude.{
  ℕ, ◌+◌, ◌%◌, ◌^◌, Bool, true, false, not, ◌&&◌, List, [], ◌∷◌, Option, none, some, CString,
  if◌then◌else◌, set, get_or,
}
use legion_voice_mixer.Prelude.Int.{ℤ, pos, ◌+ℤ◌}
use legion_voice_mixer.Joincap.{
  Verdict, cap_ok, cap_missing, cap_malformed, cap_bad_signature, cap_wrong_agent,
  cap_wrong_session, cap_wrong_room, cap_expired, cap_replayed, cap_store_full,
  cap_stale_generation, Joincap, joincap_check, used_skew, joincap_generation, GenNote, gen_match,
  gen_epoch_ahead, gen_no_epoch, gen_ahead, gen_behind, generation_note,
}
use legion_voice_mixer.Joincap.Parse.{Crypto, Checked, accepted, refused, joincap_parse}
use legion_voice_mixer.Joincap.Nonces.{NonceStore, nonce_take}

-- `SLV_JOINCAP_SKEW_S`
abbrev pub skew_s : ℤ
skew_s = pos 120

abbrev pub inc : ℕ → ℕ
inc x = (x + 1) % 2 ^ 32

abbrev pub is_ok : Verdict → Bool
is_ok cap_ok = true
is_ok _ = false

-- A verdict as the number that it is in C.
abbrev pub index_of : Verdict → ℕ
index_of cap_ok = 0
index_of cap_missing = 1
index_of cap_malformed = 2
index_of cap_bad_signature = 3
index_of cap_wrong_agent = 4
index_of cap_wrong_session = 5
index_of cap_wrong_room = 6
index_of cap_expired = 7
index_of cap_replayed = 8
index_of cap_store_full = 9
index_of cap_stale_generation = 10

-- The process-wide state of the gate; `refusals` is `slv_join_cap_refused`, of 11 counters.
pub record Gate : Type 0 where
  pub nonces : NonceStore
  pub seen : ℕ
  pub accepted_count : ℕ
  pub skewed : ℕ
  pub refusals : List ℕ
  pub epoch_ahead : ℕ
  pub no_epoch : ℕ
  pub ahead : ℕ
  pub behind : ℕ

abbrev pub count_refusal : Verdict → Gate → Gate
count_refusal v g = record g {
  refusals = set g.refusals (index_of v) (inc (get_or g.refusals (index_of v) 0));
}

-- An accepted capability whose authority differs from the room's is counted.
unfoldable pub count_note : GenNote → Gate → Gate
count_note gen_match g = g
count_note gen_epoch_ahead g = record g { epoch_ahead = inc g.epoch_ahead }
count_note gen_no_epoch g = record g { no_epoch = inc g.no_epoch }
count_note gen_ahead g = record g { ahead = inc g.ahead }
count_note gen_behind g = record g { behind = inc g.behind }

abbrev pub count_skew : Option ℤ → Gate → Gate
count_skew none g = g
count_skew (some offset) g = record g { skewed = inc g.skewed }

-- The nonce is spent, whatever the authority check says after it. `c->exp + SLV_JOINCAP_SKEW_S` is
-- added exactly; in C it is undefined within the skew of INT64_MAX.
unfoldable pub spend : Joincap → ℤ → Gate → Verdict × Gate
unfolding nonce_take ◌+ℤ◌
spend c now_s g =
    let (v, st) = nonce_take g.nonces c.nonce (c.exp +ℤ skew_s) now_s in
    (v, record g { nonces = st })

unfoldable pub check_authority : Joincap → ℕ → ℕ → Verdict × Gate → Verdict × Gate
unfolding joincap_generation generation_note count_note
check_authority c auth_epoch policy_gen (v, g) =
    if not (is_ok v)
    then (v, g)
    else if is_ok (joincap_generation c auth_epoch policy_gen)
    then (cap_ok, count_note (generation_note c auth_epoch policy_gen) g)
    else (joincap_generation c auth_epoch policy_gen, g)

-- The checks of a capability that is parsed and signed.
unfoldable pub judge :
    Joincap → Option CString → Option CString → ℤ → ℕ → ℕ → ℤ → Gate → Verdict × Gate
unfolding joincap_check used_skew spend check_authority
judge c display session_id room auth_epoch policy_gen now_s g =
    if is_ok (joincap_check c display session_id room now_s skew_s)
    then check_authority c auth_epoch policy_gen (spend c now_s (count_skew (used_skew c now_s) g))
    else (joincap_check c display session_id room now_s skew_s, g)

unfoldable pub counted : Verdict × Gate → Verdict × Gate
counted (v, g) =
    if is_ok v
    then (v, record g { accepted_count = inc g.accepted_count })
    else (v, count_refusal v g)

abbrev pub judge_checked :
    Checked Joincap → Option CString → Option CString → ℤ → ℕ → ℕ → ℤ → Gate → Verdict × Gate
judge_checked (refused v) display session_id room auth_epoch policy_gen now_s g = (v, g)
judge_checked (accepted c) display session_id room auth_epoch policy_gen now_s g =
    judge c display session_id room auth_epoch policy_gen now_s g

-- `cap == NULL || *cap == '\0'`, and the text otherwise.
abbrev pub text_of : Option CString → Option CString
text_of none = none
text_of (some []) = none
text_of (some (c ∷ cs)) = some (c ∷ cs)

module _ (crypto : Crypto) (key : Option (List ℕ)) where
  unfoldable pub verify_text :
      CString → Option CString → Option CString → ℤ → ℕ → ℕ → ℤ → Gate → Verdict × Gate
  unfolding joincap_parse judge counted
  verify_text text display session_id room auth_epoch policy_gen now_s g = elim key [
    | none ↦ (cap_ok, g)
    | some k ↦ counted (
        judge_checked (joincap_parse crypto text k) display session_id room auth_epoch policy_gen
          now_s g)
  ]

  -- `janus_slvoice_joincap_verify`
  unfoldable pub joincap_verify :
      Option CString
      → Option CString
      → Option CString
      → ℤ
      → ℕ
      → ℕ
      → Bool
      → ℤ
      → Gate
      → Verdict × Gate
  unfolding verify_text
  joincap_verify text display session_id room auth_epoch policy_gen declared now_s g =
      elim (text_of text) [
        | none ↦ (cap_missing, if declared then count_refusal cap_missing g else g)
        | some t ↦
            verify_text t display session_id room auth_epoch policy_gen now_s
              (record g { seen = inc g.seen })
      ]

-- Does the join handler turn the join down?
abbrev pub is_turned_down : Bool → Bool → Verdict → Bool
is_turned_down required gated v = not (is_ok v) && (required && gated)
