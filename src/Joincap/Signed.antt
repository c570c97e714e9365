-- ===== src/Joincap/Signed.antt =====
-- What an accepted capability proves, and that a well-formed signed one is read.
use legion_voice_mixer.Prelude.{
  ℕ, ◌^◌, ◌≤◌, ◌<◌, ◌≡◌, refl, inl, inr, not, ◌||◌, List, [], ◌∷◌, ◌++◌, Option, none, some,
  CString, length, ltb, ◌==◌, str_eq, str_eq_iff, take, drop, arith, Option-cases,
}
use legion_voice_mixer.Prelude.Int.{ℤ, pos, ◌≤ℤ◌}
use legion_voice_mixer.Base64.{b64url_decode}
use legion_voice_mixer.Hex.{hex64}
use legion_voice_mixer.Joincap.{cap_malformed, cap_bad_signature, Joincap}
use legion_voice_mixer.Joincap.Parse.{
  Crypto, Checked, accepted, refused, ◌>>=◌, require, or_malformed, mac_len, payload_max, max_len,
  prefix, split_last_dot, split_bar, has_nul, joincap_id, joincap_i64, check_fields, read_fields,
  check_mac, parse_parts, joincap_parse,
}

-- Inversion of an accepted bind.
pub >>=-accepted {ℓ κ} :
    {A : Type ℓ} {B : Type κ} (m : Checked A) (f : A → Checked B) {b : B}
    → (m >>= f) ≡ accepted b
    → (a : A) × (m ≡ accepted a) × (f a ≡ accepted b)
>>=-accepted (accepted a) f h = (a, refl, h)
>>=-accepted (refused v) f h = cc

split_last_dot_append :
    (s : CString) {before after : CString}
    → split_last_dot s ≡ some (before, after)
    → s ≡ before ++ b'.' ∷ after
unfolding split_last_dot
split_last_dot_append [] e = cc
split_last_dot_append (c ∷ cs) e = elim (Option-cases (split_last_dot cs)) [
  | inl n ↦ ground (arith, n)
  | inr ((b, a), q) ↦ ground (arith, q, split_last_dot_append cs q)
]

-- The ranges that a capability's numbers and names are held to.
pub record InRange (c : Joincap) : Type 0 where
  pub agent_fits : (0 < length c.agent) × (length c.agent < 40)
  pub session_fits : (0 < length c.session) × (length c.session < 40)
  pub nonce_fits : (0 < length c.nonce) × (length c.nonce < 40)
  pub room_positive : pos 1 ≤ℤ c.room
  pub generation_fits : c.generation < 2 ^ 32
  pub iat_positive : pos 1 ≤ℤ c.iat
  pub window : c.iat ≤ℤ c.exp

joincap_id_fits :
    (s : CString) {t : CString} → joincap_id s ≡ some t → (0 < length t) × (length t < 40)
unfolding joincap_id
joincap_id_fits s e = ground arith

-- What the check of the numbers adds to names that fit.
abbrev Numbers : Joincap → Joincap → Type 0
Numbers c c' =
    (c'.agent ≡ c.agent)
    × (c'.session ≡ c.session)
    × (c'.nonce ≡ c.nonce)
    × (pos 1 ≤ℤ c'.room)
    × (c'.generation < 2 ^ 32)
    × (pos 1 ≤ℤ c'.iat)
    × (c'.iat ≤ℤ c'.exp)

check_fields_lem :
    (c : Joincap) (gen : ℤ) {c' : Joincap} → check_fields c gen ≡ accepted c' → Numbers c c'
unfolding check_fields
check_fields_lem c gen e = ground arith

or_malformed-accepted {ℓ} :
    {A : Type ℓ} (o : Option A) {a : A} → or_malformed o ≡ accepted a → o ≡ some a
or_malformed-accepted none e = cc
or_malformed-accepted (some a) e = cc

pub read_fields-InRange :
    (fields : List CString) {c : Joincap} → read_fields fields ≡ accepted c → InRange c
unfolding read_fields
read_fields-InRange (f0 ∷ f1 ∷ f2 ∷ f3 ∷ f4 ∷ f5 ∷ f6 ∷ f7 ∷ []) e =
    let (agent, a, e1) = >>=-accepted (or_malformed (joincap_id f0)) _ e in
    let (session, s, e2) = >>=-accepted (or_malformed (joincap_id f1)) _ e1 in
    let (room, _, e3) = >>=-accepted (or_malformed (joincap_i64 f2)) _ e2 in
    let (epoch, _, e4) = >>=-accepted (or_malformed (hex64 f3)) _ e3 in
    let (gen, _, e5) = >>=-accepted (or_malformed (joincap_i64 f4)) _ e4 in
    let (iat, _, e6) = >>=-accepted (or_malformed (joincap_i64 f5)) _ e5 in
    let (exp, _, e7) = >>=-accepted (or_malformed (joincap_i64 f6)) _ e6 in
    let (nonce, n, e8) = >>=-accepted (or_malformed (joincap_id f7)) _ e7 in
    let read : Joincap = record {
      agent = agent;
      session = session;
      room = room;
      epoch = epoch;
      generation = 0;
      iat = iat;
      exp = exp;
      nonce = nonce;
    } in
    let (x, y, z, r, g, i, w) = check_fields_lem read gen e8 in
    record {
      agent_fits = rw x (joincap_id_fits f0 (or_malformed-accepted (joincap_id f0) a));
      session_fits = rw y (joincap_id_fits f1 (or_malformed-accepted (joincap_id f1) s));
      nonce_fits = rw z (joincap_id_fits f7 (or_malformed-accepted (joincap_id f7) n));
      room_positive = r;
      generation_fits = g;
      iat_positive = i;
      window = w;
    }
read_fields-InRange fields e = cc

fits :
    (n : ℕ) {u : Unit {0}}
    → require (not (n == 0 || ltb max_len n)) cap_malformed ≡ accepted u
    → n ≤ max_len
fits n e = ground arith

same_prefix :
    (s : CString) {u : Unit {0}} → require (str_eq s prefix) cap_malformed ≡ accepted u → s ≡ prefix
same_prefix s e = ground (arith, e, str_eq_iff s prefix)

module _ (crypto : Crypto) where
  open crypto use {hmac_sha256, memcmp_equal, memcmp_equal_iff}

  -- What a signature check that passes has seen.
  check_mac_lem :
      (key : List ℕ) (signing : CString) (given : List ℕ) {u : Unit {0}}
      → check_mac crypto key signing given ≡ accepted u
      → (hmac_sha256 key signing ≡ some given) × (length given ≡ mac_len)
  unfolding check_mac
  check_mac_lem key signing given e =
      let (want, h, e1) = >>=-accepted (or_malformed (hmac_sha256 key signing)) _ e in
      let (_, l, e2) = >>=-accepted (require (length want == mac_len) cap_malformed) _ e1 in
      mac_facts want (or_malformed-accepted (hmac_sha256 key signing) h) l e2
    where
      mac_facts :
          (want : List ℕ) {u v : Unit {0}}
          → hmac_sha256 key signing ≡ some want
          → require (length want == mac_len) cap_malformed ≡ accepted u
          → require (memcmp_equal given want) cap_bad_signature ≡ accepted v
          → (hmac_sha256 key signing ≡ some given) × (length given ≡ mac_len)
      mac_facts want h l m = ground (arith, h, l, m, memcmp_equal_iff given want)

  -- How the text of a capability comes to stand for it.
  pub record IsSigned (text : CString) (key : List ℕ) (c : Joincap) : Type 0 where
    pub signing : CString
    pub b64_mac : CString
    pub mac : List ℕ
    pub payload : List ℕ
    pub whole : text ≡ signing ++ b'.' ∷ b64_mac
    pub short_enough : length text ≤ max_len
    pub version : take 3 text ≡ prefix
    pub mac_read : b64url_decode mac_len b64_mac ≡ some mac
    pub authentic : hmac_sha256 key signing ≡ some mac
    pub payload_read : b64url_decode payload_max (drop 3 signing) ≡ some payload
    pub fields_read : read_fields (split_bar payload []) ≡ accepted c
    pub in_range : InRange c

  -- An accepted capability is signed: the text splits at its last dot into a signing input and a MAC of 32
  -- bytes that is the HMAC of that input under the key, the input begins with the version prefix, and the
  -- names and numbers read from the payload are in range.
  pub joincap_parse-IsSigned :
      (text : CString) (key : List ℕ) {c : Joincap}
      → joincap_parse crypto text key ≡ accepted c
      → IsSigned text key c
  unfolding joincap_parse parse_parts
  joincap_parse-IsSigned text key {c} e =
      let (_, _, e1) = >>=-accepted (require (not (length key == 0)) cap_malformed) _ e in
      let (_, l, e2) =
        >>=-accepted (require (not (length text == 0 || ltb max_len (length text))) cap_malformed) _
          e1 in
      let (_, v, e3) = >>=-accepted (require (str_eq (take 3 text) prefix) cap_malformed) _ e2 in
      let (parts, p, e4) = >>=-accepted (or_malformed (split_last_dot text)) _ e3 in
      let (_, _, e5) = >>=-accepted (require (ltb 3 (length parts.0)) cap_malformed) _ e4 in
      let (mac, m, e6) = >>=-accepted (or_malformed (b64url_decode mac_len parts.1)) _ e5 in
      let (_, _, e7) = >>=-accepted (require (length mac == mac_len) cap_malformed) _ e6 in
      let (_, a, e8) = >>=-accepted (check_mac crypto key parts.0 mac) _ e7 in
      let (payload, q, e9) =
        >>=-accepted (or_malformed (b64url_decode payload_max (drop 3 parts.0))) _ e8 in
      let (_, _, e10) = >>=-accepted (require (not (has_nul payload)) cap_malformed) _ e9 in
      record {
        signing = parts.0;
        b64_mac = parts.1;
        mac = mac;
        payload = payload;
        whole = split_last_dot_append text (or_malformed-accepted (split_last_dot text) p);
        short_enough = fits (length text) l;
        version = same_prefix (take 3 text) v;
        mac_read = or_malformed-accepted (b64url_decode mac_len parts.1) m;
        authentic = (check_mac_lem key parts.0 mac a).0;
        payload_read = or_malformed-accepted (b64url_decode payload_max (drop 3 parts.0)) q;
        fields_read = e10;
        in_range = read_fields-InRange (split_bar payload []) e10;
      }
