-- ===== src/Joincap/Refusals.antt =====
-- A capability that is not accepted is refused: the parser never refuses with the verdict "ok".
use legion_voice_mixer.Prelude.{
  ℕ, ◌≢◌, Bool, true, false, not, ◌||◌, List, [], ◌∷◌, Option, none, some, CString, length, take,
  drop, ltb, ◌==◌, str_eq, arith,
}
use legion_voice_mixer.Prelude.Int.{ℤ}
use legion_voice_mixer.Base64.{b64url_decode}
use legion_voice_mixer.Hex.{hex64}
use legion_voice_mixer.Joincap.{cap_ok, cap_malformed, cap_bad_signature, Joincap}
use legion_voice_mixer.Joincap.Parse.{
  Crypto, Checked, accepted, refused, ◌>>=◌, require, or_malformed, mac_len, payload_max, max_len,
  prefix, split_last_dot, split_bar, has_nul, joincap_id, joincap_i64, check_fields, read_fields,
  check_mac, parse_parts, joincap_parse,
}

abbrev pub Proper {ℓ} : {A : Type ℓ} → Checked A → Type ℓ
Proper m = m ≢ refused cap_ok

bind-Proper {ℓ κ} :
    {A : Type ℓ} {B : Type κ} (m : Checked A) (f : A → Checked B)
    → Proper m
    → ((a : A) → Proper (f a))
    → Proper (m >>= f)
bind-Proper (accepted a) f h k = k a
bind-Proper (refused v) f h k = λ e. ground (arith, h, e)

or_malformed-Proper {ℓ} : {A : Type ℓ} (o : Option A) → Proper (or_malformed o)
or_malformed-Proper none = λ e. cc
or_malformed-Proper (some a) = λ e. cc

malformed-Proper : (b : Bool) → Proper (require b cap_malformed)
malformed-Proper true = λ e. cc
malformed-Proper false = λ e. cc

bad_signature-Proper : (b : Bool) → Proper (require b cap_bad_signature)
bad_signature-Proper true = λ e. cc
bad_signature-Proper false = λ e. cc

or_malformed-bind {ℓ} :
    {A : Type ℓ} (o : Option A) (f : A → Checked Joincap)
    → ((a : A) → Proper (f a))
    → Proper (or_malformed o >>= f)
or_malformed-bind o f h = bind-Proper (or_malformed o) f (or_malformed-Proper o) h

require-bind :
    (b : Bool) (k : Checked Joincap) → Proper k → Proper (require b cap_malformed >>= (λ _. k))
require-bind b k h = bind-Proper (require b cap_malformed) (λ _. k) (malformed-Proper b) (λ _. h)

check_fields-Proper : (c : Joincap) (gen : ℤ) → Proper (check_fields c gen)
unfolding check_fields
check_fields-Proper c gen = λ e. ground (arith, e)

read_fields-Proper : (fields : List CString) → Proper (read_fields fields)
unfolding read_fields
read_fields-Proper (f0 ∷ f1 ∷ f2 ∷ f3 ∷ f4 ∷ f5 ∷ f6 ∷ f7 ∷ []) =
    or_malformed-bind (joincap_id f0) _ (λ a. or_malformed-bind (joincap_id f1) _ (λ b.
      or_malformed-bind (joincap_i64 f2) _ (λ c. or_malformed-bind (hex64 f3) _ (λ d.
        or_malformed-bind (joincap_i64 f4) _ (λ g. or_malformed-bind (joincap_i64 f5) _ (λ h.
          or_malformed-bind (joincap_i64 f6) _ (λ i. or_malformed-bind (joincap_id f7) _ (λ j.
            check_fields-Proper
              (record {
                agent = a;
                session = b;
                room = c;
                epoch = d;
                generation = 0;
                iat = h;
                exp = i;
                nonce = j;
              })
              g))))))))
read_fields-Proper fields = λ e. cc

module _ (crypto : Crypto) where
  check_mac-Proper :
      (key : List ℕ) (signing : CString) (given : List ℕ)
      → Proper (check_mac crypto key signing given)
  unfolding check_mac
  check_mac-Proper key signing given =
      bind-Proper (or_malformed (crypto.hmac_sha256 key signing)) _
        (or_malformed-Proper (crypto.hmac_sha256 key signing))
        (λ want.
          bind-Proper (require (length want == mac_len) cap_malformed) _
            (malformed-Proper (length want == mac_len))
            (λ _. bad_signature-Proper (crypto.memcmp_equal given want)))

  parse_parts-Proper :
      (key : List ℕ) (signing b64_mac : CString) → Proper (parse_parts crypto key signing b64_mac)
  unfolding parse_parts
  parse_parts-Proper key signing b64_mac =
      or_malformed-bind (b64url_decode mac_len b64_mac) _ (λ given.
        require-bind (length given == mac_len) _ (
          bind-Proper (check_mac crypto key signing given) _ (check_mac-Proper key signing given)
            (λ _. or_malformed-bind (b64url_decode payload_max (drop 3 signing)) _ (λ payload.
              require-bind (not (has_nul payload)) _ (read_fields-Proper (split_bar payload []))))))

  -- The parser either accepts or gives a reason.
  pub joincap_parse-Proper :
      (text : CString) (key : List ℕ) → Proper (joincap_parse crypto text key)
  unfolding joincap_parse
  joincap_parse-Proper text key = require-bind (not (length key == 0)) _ (
      require-bind (not (length text == 0 || ltb max_len (length text))) _ (
        require-bind (str_eq (take 3 text) prefix) _ (
          or_malformed-bind (split_last_dot text) _ (λ parts.
            require-bind (ltb 3 (length parts.0)) _ (parse_parts-Proper key parts.0 parts.1)))))
