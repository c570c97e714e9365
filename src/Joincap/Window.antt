-- ===== src/Joincap/Window.antt =====
-- The two ends of a window: `slv_joincap_check` still takes a capability in the second in which
-- `slv_joincap_nonce_sweep` drops its nonce (src/joincap.c).
use legion_voice_mixer.Prelude.{◌≡◌, ◌≢◌, ◌&&◌, [], ◌∷◌, CString, arith}
use legion_voice_mixer.Prelude.Int.{ℤ}
use legion_voice_mixer.Swap.{any-snoc, any_mono}
use legion_voice_mixer.Joincap.{cap_ok, cap_replayed}
use legion_voice_mixer.Joincap.Nonces.{NonceStore, names, sweep, take_swept, nonce_take}
use legion_voice_mixer.Joincap.Replay.{is_live, nonce_take_verdict}

-- In the very second in which an accepted nonce expires the store no longer answers it as a replay.
pub nonce_take-last_second :
    (st : NonceStore) (nonce : CString) (expires_at now_s again : ℤ)
    → (nonce_take st nonce expires_at now_s).0 ≡ cap_ok
    → (nonce_take (nonce_take st nonce expires_at now_s).1 nonce again expires_at).0 ≢ cap_replayed
unfolding nonce_take take_swept
nonce_take-last_second st [] expires_at now_s again ok = absurd (ground (arith, ok))
nonce_take-last_second st (c ∷ cs) expires_at now_s again ok = λ e. ground (
  arith,
  ok,
  e,
  nonce_take_verdict (nonce_take st (c ∷ cs) expires_at now_s).1 c cs again expires_at,
  any-snoc (λ s. is_live expires_at s && names (c ∷ cs) s) (sweep st now_s).entries
      (record { nonce = c ∷ cs; expires_at = expires_at }),
  any_mono (λ s. is_live expires_at s && names (c ∷ cs) s) (names (c ∷ cs)) (sweep st now_s).entries
      (λ s q. ground (arith, q)),
)
