-- ===== src/Joincap/Admission.antt =====
-- What an admitted join proves, from the text of its capability to the replay store.
use legion_voice_mixer.Prelude.{
  ℕ, ◌<◌, ◌≡◌, ◌≢◌, ◌⊎◌, inl, inr, refl, ap, true, false, List, Option, none, some, CString, arith,
}
use legion_voice_mixer.Prelude.Int.{ℤ, ◌+ℤ◌, ◌-ℤ◌, ◌≤ℤ◌, leb_ℤ}
use legion_voice_mixer.Joincap.{
  Verdict, cap_ok, Joincap, joincap_check, used_skew, joincap_generation,
}
use legion_voice_mixer.Joincap.Parse.{Crypto, Checked, accepted, refused, joincap_parse}
use legion_voice_mixer.Joincap.Signed.{IsSigned, joincap_parse-IsSigned}
use legion_voice_mixer.Joincap.Checks.{joincap_check-ok_iff}
use legion_voice_mixer.Joincap.Nonces.{nonce_take}
use legion_voice_mixer.Joincap.Replay.{nonce_take_once, Take, takes, AllBefore}
use legion_voice_mixer.Joincap.Refusals.{joincap_parse-Proper}
use legion_voice_mixer.Joincap.Gate.{
  skew_s, is_ok, Gate, count_note, count_skew, spend, check_authority, judge, judge_checked,
  counted, verify_text,
}

ok_of_is_ok : (v : Verdict) → is_ok v ≡ true → v ≡ cap_ok
ok_of_is_ok v h = ground arith

counted-ok : (x : Verdict × Gate) → (counted x).0 ≡ cap_ok → x.0 ≡ cap_ok
unfolding counted
counted-ok x h = ground arith

-- The store that a nonce is spent from, once the skew is counted.
nonces-count_skew : (offset : Option ℤ) (g : Gate) → (count_skew offset g).nonces ≡ g.nonces
nonces-count_skew none g = refl
nonces-count_skew (some offset) g = refl

judge_ok :
    (c : Joincap) (display session_id : Option CString) (room : ℤ) (auth_epoch policy_gen : ℕ)
    (now_s : ℤ) (g : Gate)
    → (judge c display session_id room auth_epoch policy_gen now_s g).0 ≡ cap_ok
    → (joincap_check c display session_id room now_s skew_s ≡ cap_ok)
      × ((nonce_take g.nonces c.nonce (c.exp +ℤ skew_s) now_s).0 ≡ cap_ok)
      × ((c.epoch ≡ 0) ⊎ ¬ (c.epoch < auth_epoch))
unfolding judge check_authority spend joincap_generation
judge_ok c display session_id room auth_epoch policy_gen now_s g h =
    ground (arith, h, nonces-count_skew (used_skew c now_s) g)

judge_nonces :
    (c : Joincap) (display session_id : Option CString) (room : ℤ) (auth_epoch policy_gen : ℕ)
    (now_s : ℤ) (g : Gate)
    → (judge c display session_id room auth_epoch policy_gen now_s g).0 ≡ cap_ok
    → (judge c display session_id room auth_epoch policy_gen now_s g).1.nonces
      ≡ (nonce_take g.nonces c.nonce (c.exp +ℤ skew_s) now_s).1
unfolding judge check_authority spend joincap_generation count_note
judge_nonces c display session_id room auth_epoch policy_gen now_s g h =
    ground (arith, h, nonces-count_skew (used_skew c now_s) g)

counted_nonces : (x : Verdict × Gate) → (counted x).1.nonces ≡ x.1.nonces
unfolding counted
counted_nonces x = ground arith

judge_checked-ok :
    (m : Checked Joincap) (display session_id : Option CString) (room : ℤ)
    (auth_epoch policy_gen : ℕ) (now_s : ℤ) (g : Gate)
    → (counted (judge_checked m display session_id room auth_epoch policy_gen now_s g)).0 ≡ cap_ok
    → (m ≡ refused cap_ok)
      ⊎ ((c : Joincap) × (m ≡ accepted c)
          × ((judge c display session_id room auth_epoch policy_gen now_s g).0 ≡ cap_ok))
judge_checked-ok (accepted c) display session_id room auth_epoch policy_gen now_s g h =
    inr (c, refl, counted-ok (judge c display session_id room auth_epoch policy_gen now_s g) h)
judge_checked-ok (refused v) display session_id room auth_epoch policy_gen now_s g h =
    inl (ap refused (counted-ok (v, g) h))

module _ (crypto : Crypto) (k : List ℕ) where
  verify_text_ok :
      (t : CString) (display session_id : Option CString) (room : ℤ) (auth_epoch policy_gen : ℕ)
      (now_s : ℤ) (g : Gate)
      → (verify_text crypto (some k) t display session_id room auth_epoch policy_gen now_s g).0
        ≡ cap_ok
      → (c : Joincap) × (joincap_parse crypto t k ≡ accepted c)
        × ((judge c display session_id room auth_epoch policy_gen now_s g).0 ≡ cap_ok)
  unfolding verify_text
  verify_text_ok t display session_id room auth_epoch policy_gen now_s g h =
      elim (judge_checked-ok (joincap_parse crypto t k) display session_id room auth_epoch
        policy_gen now_s g h) [
          | inl r ↦ absurd (joincap_parse-Proper crypto t k r)
          | inr found ↦ found
        ]

  -- What stands behind an admission: a capability that is signed, in context and in its window, whose nonce
  -- was unspent, and that no older authority minted.
  pub record Admitted (t : CString) (display session_id : Option CString) (room : ℤ)
      (auth_epoch : ℕ) (now_s : ℤ) (g : Gate) : Type 0 where
    pub capability : Joincap
    pub signed : IsSigned crypto t k capability
    pub for_agent : display ≡ some capability.agent
    pub for_session : session_id ≡ some capability.session
    pub for_room : capability.room ≡ room
    pub not_late : now_s ≤ℤ capability.exp +ℤ skew_s
    pub not_early : capability.iat -ℤ skew_s ≤ℤ now_s
    pub unspent : (nonce_take g.nonces capability.nonce (capability.exp +ℤ skew_s) now_s).0 ≡ cap_ok
    pub not_older : (capability.epoch ≡ 0) ⊎ ¬ (capability.epoch < auth_epoch)

  -- Where a key is configured, a join whose capability is found good carries one that is signed under the
  -- key, names the join's agent, session and room, stands in its window, has a nonce that was unspent,
  -- and carries no epoch below the room's.
  pub verify_text-Admitted :
      (t : CString) (display session_id : Option CString) (room : ℤ) (auth_epoch policy_gen : ℕ)
      (now_s : ℤ) (g : Gate)
      → (verify_text crypto (some k) t display session_id room auth_epoch policy_gen now_s g).0
        ≡ cap_ok
      → Admitted t display session_id room auth_epoch now_s g
  verify_text-Admitted t display session_id room auth_epoch policy_gen now_s g h =
      let (c, p, j) = verify_text_ok t display session_id room auth_epoch policy_gen now_s g h in
      let (checked, fresh, newer) =
        judge_ok c display session_id room auth_epoch policy_gen now_s g j in
      let (a, s, r, late, early) =
        (joincap_check-ok_iff c display session_id room now_s skew_s).0 checked in
      record {
        capability = c;
        signed = joincap_parse-IsSigned crypto t k p;
        for_agent = a;
        for_session = s;
        for_room = r;
        not_late = late;
        not_early = early;
        unspent = fresh;
        not_older = newer;
      }

  -- A capability admits once: after a join that it admitted, and whatever nonces are spent in between, no
  -- join that carries it is admitted before its expiry plus the skew, where all of that comes before then.
  pub verify_text_once :
      (t : CString) (c : Joincap) (display session_id display' session_id' : Option CString)
      (room room' : ℤ) (auth_epoch policy_gen auth_epoch' policy_gen' : ℕ) (now_s later : ℤ)
      (g g' : Gate) (ts : List Take)
      → joincap_parse crypto t k ≡ accepted c
      → (verify_text crypto (some k) t display session_id room auth_epoch policy_gen now_s g).0
        ≡ cap_ok
      → g'.nonces
        ≡ takes
            (verify_text crypto
              (some k)
              t
              display
              session_id
              room
              auth_epoch
              policy_gen
              now_s
              g).1.nonces
            ts
      → AllBefore (c.exp +ℤ skew_s) ts
      → leb_ℤ (c.exp +ℤ skew_s) later ≡ false
      → (verify_text crypto
          (some k)
          t
          display'
          session_id'
          room'
          auth_epoch'
          policy_gen'
          later
          g').0
        ≢ cap_ok
  unfolding verify_text
  verify_text_once t c display session_id display' session_id' room room' auth_epoch policy_gen
        auth_epoch' policy_gen' now_s later g g' ts p ok between before live again =
      let first : (judge c display session_id room auth_epoch policy_gen now_s g).0 ≡ cap_ok =
        counted-ok (judge c display session_id room auth_epoch policy_gen now_s g) (rw p at ok) in
      let second : (judge c display' session_id' room' auth_epoch' policy_gen' later g').0
          ≡ cap_ok =
        counted-ok (judge c display' session_id' room' auth_epoch' policy_gen' later g')
          (rw p at again) in
      let (_, fresh, _) = judge_ok c display session_id room auth_epoch policy_gen now_s g first in
      let (_, fresh', _) =
        judge_ok c display' session_id' room' auth_epoch' policy_gen' later g' second in
      let replayed =
        nonce_take_once g.nonces c.nonce (c.exp +ℤ skew_s) now_s ts (c.exp +ℤ skew_s) later fresh
          before live in
      let kept = rw p at between in
      ground (
        arith,
        replayed,
        fresh',
        kept,
        counted_nonces (judge c display session_id room auth_epoch policy_gen now_s g),
        judge_nonces c display session_id room auth_epoch policy_gen now_s g first,
      )
