-- ===== src/Joincap/Nonces.antt =====
-- The bounded replay store of src/joincap.c. The array of entries is the list of its first `n`; the
-- `uint64_t` counters wrap.
use legion_voice_mixer.Prelude.{
  ℕ, zero, suc, ◌+◌, ◌%◌, ◌^◌, Bool, List, [], ◌∷◌, ◌++◌, CString, str_eq, length, leb,
  if◌then◌else◌,
}
use legion_voice_mixer.Prelude.Int.{ℤ, leb_ℤ}
use legion_voice_mixer.Swap.{move_last, any}
use legion_voice_mixer.Joincap.{Verdict, cap_ok, cap_malformed, cap_replayed, cap_store_full}

abbrev pub nonce_max : ℕ
nonce_max = 4096

pub record Spent : Type 0 where
  pub nonce : CString
  pub expires_at : ℤ

-- `slv_joincap_nonce_store`
pub record NonceStore : Type 0 where
  pub entries : List Spent
  pub taken : ℕ
  pub replayed : ℕ
  pub full : ℕ
  pub expired : ℕ

abbrev pub next : ℕ → ℕ
next x = (x + 1) % 2 ^ 64

abbrev pub keep_entry : Spent → List Spent × ℕ → List Spent × ℕ
keep_entry e (es, expired) = (e ∷ es, expired)

-- The loop of the sweep from one index on: the entries there, and the count of the expired. A round
-- either keeps an entry or drops one, so as many rounds as there are entries end it.
unfoldable pub sweep_from : ℕ → ℤ → List Spent → ℕ → List Spent × ℕ
unfolding move_last
sweep_from zero now_s es expired = (es, expired)
sweep_from (suc fuel) now_s [] expired = ([], expired)
sweep_from (suc fuel) now_s (e ∷ es) expired =
    let dropped = sweep_from fuel now_s (move_last es) (next expired) in
    let kept = keep_entry e (sweep_from fuel now_s es expired) in
    if leb_ℤ e.expires_at now_s then dropped else kept

-- `slv_joincap_nonce_sweep`
unfoldable pub sweep : NonceStore → ℤ → NonceStore
unfolding sweep_from
sweep st now_s =
    let (es, expired) = sweep_from (length st.entries) now_s st.entries st.expired in
    record st { entries = es; expired = expired }

abbrev pub names : CString → Spent → Bool
names nonce e = str_eq e.nonce nonce

-- What `slv_joincap_nonce_take` does once the sweep is done.
unfoldable pub take_swept : NonceStore → CString → ℤ → Verdict × NonceStore
take_swept st nonce expires_at =
    if any (names nonce) st.entries
    then (cap_replayed, record st { replayed = next st.replayed })
    else if leb nonce_max (length st.entries)
    then (cap_store_full, record st { full = next st.full })
    else if leb 40 (length nonce)
    then (cap_malformed, st)
    else (
      cap_ok,
      record st {
        entries = st.entries ++ record { nonce = nonce; expires_at = expires_at } ∷ [];
        taken = next st.taken;
      },
    )

-- `slv_joincap_nonce_take`, at a nonce that is not NULL.
unfoldable pub nonce_take : NonceStore → CString → ℤ → ℤ → Verdict × NonceStore
unfolding sweep take_swept
nonce_take st [] expires_at now_s = (cap_malformed, st)
nonce_take st (c ∷ cs) expires_at now_s = take_swept (sweep st now_s) (c ∷ cs) expires_at
