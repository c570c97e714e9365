-- ===== src/Joincap/Replay.antt =====
-- The replay store: what a sweep leaves, and that a nonce is accepted once in its window.
use legion_voice_mixer.Prelude.{
  ℕ, zero, suc, ◌≤◌, ◌≡◌, refl, ◌∙◌, Bool, true, false, not, ◌&&◌, List, [], ◌∷◌, CString,
  str_eq_refl, length, length-append, leb, if◌then◌else◌, arith,
}
use legion_voice_mixer.Prelude.Int.{ℤ, leb_ℤ, eqb_ℤ}
use legion_voice_mixer.Swap.{
  move_last, length-move_last, any, any-move_last, any-cong, any-snoc, any_mono, count,
  count-move_last,
}
use legion_voice_mixer.Joincap.{cap_ok, cap_malformed, cap_replayed, cap_store_full}
use legion_voice_mixer.Joincap.Nonces.{
  nonce_max, Spent, NonceStore, next, sweep_from, sweep, names, take_swept, nonce_take,
}

-- Has the entry's window not passed yet?
abbrev pub is_live : ℤ → Spent → Bool
is_live now_s e = not (leb_ℤ e.expires_at now_s)

-- With a round for each entry, the sweep drops exactly the entries whose window has passed: a live entry
-- passes any test after it if and only if one did before, and nothing else is left.
any-sweep_from :
    (p : Spent → Bool) (fuel : ℕ) (now_s : ℤ) (es : List Spent) (expired : ℕ)
    → length es ≤ fuel
    → any p (sweep_from fuel now_s es expired).0 ≡ any (λ e. is_live now_s e && p e) es
unfolding sweep_from
any-sweep_from p zero now_s [] expired h = refl
any-sweep_from p zero now_s (e ∷ es) expired h = absurd (omega arith)
any-sweep_from p (suc fuel) now_s [] expired h = refl
any-sweep_from p (suc fuel) now_s (e ∷ es) expired h = ground (
  arith,
  any-sweep_from p fuel now_s (move_last es) (next expired) (omega (arith, length-move_last es)),
  any-sweep_from p fuel now_s es expired (omega arith),
  any-move_last (λ e. is_live now_s e && p e) es,
)

length-sweep_from :
    (fuel : ℕ) (now_s : ℤ) (es : List Spent) (expired : ℕ)
    → length es ≤ fuel
    → length (sweep_from fuel now_s es expired).0 ≡ count (is_live now_s) es
unfolding sweep_from
length-sweep_from zero now_s [] expired h = refl
length-sweep_from zero now_s (e ∷ es) expired h = absurd (omega arith)
length-sweep_from (suc fuel) now_s [] expired h = refl
length-sweep_from (suc fuel) now_s (e ∷ es) expired h = ground (
  arith,
  count-move_last (is_live now_s) es,
  length-sweep_from fuel now_s (move_last es) (next expired) (omega (arith, length-move_last es)),
  length-sweep_from fuel now_s es expired (omega arith),
)

pub any-sweep :
    (p : Spent → Bool) (st : NonceStore) (now_s : ℤ)
    → any p (sweep st now_s).entries ≡ any (λ e. is_live now_s e && p e) st.entries
unfolding sweep
any-sweep p st now_s =
    any-sweep_from p (length st.entries) now_s st.entries st.expired (omega arith)

pub length-sweep :
    (st : NonceStore) (now_s : ℤ)
    → length (sweep st now_s).entries ≡ count (is_live now_s) st.entries
unfolding sweep
length-sweep st now_s =
    length-sweep_from (length st.entries) now_s st.entries st.expired (omega arith)

-- The verdict on a nonce that is not empty, read off the store before the sweep: a live entry of that name
-- means a replay, 4096 live entries a full store, and a name that fits its buffer is spent.
pub nonce_take_verdict :
    (st : NonceStore) (c : ℕ) (cs : CString) (expires_at now_s : ℤ)
    → (nonce_take st (c ∷ cs) expires_at now_s).0 ≡ (
        if any (λ e. is_live now_s e && names (c ∷ cs) e) st.entries
        then cap_replayed
        else if leb nonce_max (count (is_live now_s) st.entries)
        then cap_store_full
        else if leb 40 (length (c ∷ cs))
        then cap_malformed
        else cap_ok)
unfolding nonce_take take_swept
nonce_take_verdict st c cs expires_at now_s =
    ground (arith, any-sweep (names (c ∷ cs)) st now_s, length-sweep st now_s)

count-le : (p : Spent → Bool) (es : List Spent) → count p es ≤ length es
count-le p [] = omega arith
count-le p (e ∷ es) = ground (arith, count-le p es)

-- A call leaves no more entries than the array holds, if there were no more before it.
pub nonce_take_bounded :
    (st : NonceStore) (nonce : CString) (expires_at now_s : ℤ)
    → length st.entries ≤ nonce_max
    → length (nonce_take st nonce expires_at now_s).1.entries ≤ nonce_max
unfolding nonce_take take_swept
nonce_take_bounded st [] expires_at now_s h = h
nonce_take_bounded st (c ∷ cs) expires_at now_s h = ground (
  arith,
  length-sweep st now_s,
  count-le (is_live now_s) st.entries,
  length-append (sweep st now_s).entries (record { nonce = c ∷ cs; expires_at = expires_at } ∷ []),
)

-- The store has an entry for the nonce that expires at that time.
abbrev pub entry_for : CString → ℤ → Spent → Bool
entry_for nonce expires_at e = names nonce e && eqb_ℤ e.expires_at expires_at

abbrev pub Remembers : CString → ℤ → NonceStore → Type 0
Remembers nonce expires_at st = any (entry_for nonce expires_at) st.entries ≡ true

eqb_ℤ-refl : (a : ℤ) → eqb_ℤ a a ≡ true
eqb_ℤ-refl a = ground arith

sweep-Remembers :
    (st : NonceStore) (nonce : CString) (expires_at now_s : ℤ)
    → leb_ℤ expires_at now_s ≡ false
    → Remembers nonce expires_at st
    → Remembers nonce expires_at (sweep st now_s)
sweep-Remembers st nonce expires_at now_s live h =
    any-sweep (entry_for nonce expires_at) st now_s
    ∙ any-cong (λ e. is_live now_s e && entry_for nonce expires_at e) (entry_for nonce expires_at)
        st.entries (λ e. ground (arith, live))
    ∙ h

take-Remembers :
    (st : NonceStore) (nonce other : CString) (expires_at later now_s : ℤ)
    → leb_ℤ expires_at now_s ≡ false
    → Remembers nonce expires_at st
    → Remembers nonce expires_at (nonce_take st other later now_s).1
unfolding nonce_take take_swept
take-Remembers st nonce [] expires_at later now_s live h = h
take-Remembers st nonce (c ∷ cs) expires_at later now_s live h = ground (
  arith,
  sweep-Remembers st nonce expires_at now_s live h,
  any-snoc (entry_for nonce expires_at) (sweep st now_s).entries
      (record { nonce = c ∷ cs; expires_at = later }),
)

-- One call of the store: its arguments.
pub record Take : Type 0 where
  pub nonce : CString
  pub expires_at : ℤ
  pub now_s : ℤ

unfoldable pub takes : NonceStore → List Take → NonceStore
takes st [] = st
takes st (t ∷ ts) = takes (nonce_take st t.nonce t.expires_at t.now_s).1 ts

-- Every call comes before the time given.
abbrev pub AllBefore : ℤ → List Take → Type 0
AllBefore time [] = Unit {0}
AllBefore time (t ∷ ts) = (leb_ℤ time t.now_s ≡ false) × AllBefore time ts

takes-Remembers :
    (st : NonceStore) (nonce : CString) (expires_at : ℤ) (ts : List Take)
    → AllBefore expires_at ts
    → Remembers nonce expires_at st
    → Remembers nonce expires_at (takes st ts)
unfolding takes
takes-Remembers st nonce expires_at [] b h = h
takes-Remembers st nonce expires_at (t ∷ ts) b h =
    takes-Remembers (nonce_take st t.nonce t.expires_at t.now_s).1 nonce expires_at ts b.1
      (take-Remembers st nonce t.nonce expires_at t.expires_at t.now_s b.0 h)

ok-Remembers :
    (st : NonceStore) (nonce : CString) (expires_at now_s : ℤ)
    → (nonce_take st nonce expires_at now_s).0 ≡ cap_ok
    → Remembers nonce expires_at (nonce_take st nonce expires_at now_s).1
unfolding nonce_take take_swept
ok-Remembers st [] expires_at now_s ok = absurd (ground arith)
ok-Remembers st (c ∷ cs) expires_at now_s ok = ground (
  arith,
  any-snoc (entry_for (c ∷ cs) expires_at) (sweep st now_s).entries
      (record { nonce = c ∷ cs; expires_at = expires_at }),
  str_eq_refl (c ∷ cs),
)

remembered_replayed :
    (st : NonceStore) (c : ℕ) (cs : CString) (expires_at again later : ℤ)
    → leb_ℤ expires_at later ≡ false
    → Remembers (c ∷ cs) expires_at st
    → (nonce_take st (c ∷ cs) again later).0 ≡ cap_replayed
remembered_replayed st c cs expires_at again later live h = ground (
  arith,
  nonce_take_verdict st c cs again later,
  any_mono (entry_for (c ∷ cs) expires_at) (λ e. is_live later e && names (c ∷ cs) e) st.entries
      (λ e q. ground (arith, live, q)) h,
)

-- A nonce is accepted once: after it was, and whatever calls follow before its expiry, the next one before
-- its expiry that names it is answered as a replay.
pub nonce_take_once :
    (st : NonceStore) (nonce : CString) (expires_at now_s : ℤ) (ts : List Take) (again later : ℤ)
    → (nonce_take st nonce expires_at now_s).0 ≡ cap_ok
    → AllBefore expires_at ts
    → leb_ℤ expires_at later ≡ false
    → (nonce_take (takes (nonce_take st nonce expires_at now_s).1 ts) nonce again later).0
      ≡ cap_replayed
nonce_take_once st [] expires_at now_s ts again later ok before live =
    absurd (unfold nonce_take in ground (arith, ok))
nonce_take_once st (c ∷ cs) expires_at now_s ts again later ok before live =
    remembered_replayed (takes (nonce_take st (c ∷ cs) expires_at now_s).1 ts) c cs expires_at again
      later live
      (takes-Remembers (nonce_take st (c ∷ cs) expires_at now_s).1 (c ∷ cs) expires_at ts before
        (ok-Remembers st (c ∷ cs) expires_at now_s ok))
