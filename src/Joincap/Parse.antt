-- ===== src/Joincap/Parse.antt =====
-- `slv_joincap_parse` of src/joincap.c: the text of a capability, its signature and its fields. HMAC-SHA256
-- and the constant-time comparison are OpenSSL's, and parameters here.
use legion_voice_mixer.Prelude.{
  ℕ, ◌-◌, ◌^◌, ◌≡◌, ◌↔◌, Bool, true, false, not, ◌||◌, List, [], ◌∷◌, ◌++◌, Option, none, some,
  CString, codes, length, leb, ltb, ◌==◌, str_eq, if◌then◌else◌, take, drop,
}
use legion_voice_mixer.Prelude.Int.{ℤ, pos, ltb_ℤ, leb_ℤ, pos_part}
use legion_voice_mixer.Libc.{strtol}
use legion_voice_mixer.Hex.{hex64}
use legion_voice_mixer.Base64.{b64url_decode}
use legion_voice_mixer.Joincap.{Verdict, cap_malformed, cap_bad_signature, Joincap}

-- What the code uses of OpenSSL: the HMAC of a message under a key (`none` for a NULL result), and whether
-- `CRYPTO_memcmp` finds two buffers equal, which is documented to compare their bytes.
pub record Crypto : Type 0 where
  pub hmac_sha256 : List ℕ → List ℕ → Option (List ℕ)
  pub memcmp_equal : List ℕ → List ℕ → Bool
  pub memcmp_equal_iff : (a b : List ℕ) → (memcmp_equal a b ≡ true) ↔ (a ≡ b)

-- A result, or the verdict that refuses.
pub data Checked {ℓ} (A : Type ℓ) : Type ℓ where
  accepted : A → Checked A
  refused : Verdict → Checked A

infixl 5 ◌>>=◌ ◌>>◌
abbrev pub ◌>>=◌ {ℓ κ} : {A : Type ℓ} {B : Type κ} → Checked A → (A → Checked B) → Checked B
accepted a >>= f = f a
refused v >>= f = refused v

abbrev pub ◌>>◌ {ℓ} : {B : Type ℓ} → Checked (Unit {0}) → Checked B → Checked B
m >> k = m >>= λ _. k

abbrev pub require : Bool → Verdict → Checked (Unit {0})
require true v = accepted tt
require false v = refused v

abbrev pub or_malformed {ℓ} : {A : Type ℓ} → Option A → Checked A
or_malformed none = refused cap_malformed
or_malformed (some a) = accepted a

abbrev pub max_len : ℕ
max_len = 1024

abbrev pub mac_len : ℕ
mac_len = 32

-- `sizeof(payload) - 1`
abbrev pub payload_max : ℕ
payload_max = 511

abbrev pub prefix : CString
prefix = codes "v1."

-- `strrchr(cap, '.')`: the text before the last dot, and the text after it.
unfoldable pub split_last_dot : CString → Option (CString × CString)
split_last_dot [] = none
split_last_dot (c ∷ cs) = elim (split_last_dot cs) [
  | some (before, after) ↦ some (c ∷ before, after)
  | none ↦ if c == b'.' then some ([], cs) else none
]

-- The loop that splits the payload on '|', where `field` is the field begun.
unfoldable pub split_bar : List ℕ → List ℕ → List (List ℕ)
split_bar [] field = field ∷ []
split_bar (c ∷ cs) field =
    let next_field = field ∷ split_bar cs [] in
    let same_field = split_bar cs (field ++ c ∷ []) in if c == b'|' then next_field else same_field

abbrev pub has_nul : List ℕ → Bool
has_nul [] = false
has_nul (c ∷ cs) = c == 0 || has_nul cs

-- `slv_joincap_id`: not empty, and short enough to store.
unfoldable pub joincap_id : CString → Option CString
joincap_id s = if length s == 0 || leb 40 (length s) then none else some s

-- `slv_joincap_i64`: what `strtoll` reads, if it reads the whole field.
unfoldable pub joincap_i64 : CString → Option ℤ
joincap_i64 s =
    if length s == 0 || leb 32 (length s)
    then none
    else if length (strtol s).rest == 0
    then some (strtol s).value
    else none

-- The numbers, once all fields are read.
unfoldable pub check_fields : Joincap → ℤ → Checked Joincap
check_fields c gen =
    if leb_ℤ c.room (pos 0)
      || ltb_ℤ gen (pos 0)
      || ltb_ℤ (pos (2 ^ 32 - 1)) gen
      || leb_ℤ c.iat (pos 0)
      || leb_ℤ c.exp (pos 0)
      || ltb_ℤ c.exp c.iat
    then refused cap_malformed
    else accepted (record c { generation = pos_part gen })

-- Exactly eight fields, in the order of the payload.
unfoldable pub read_fields : List CString → Checked Joincap
unfolding joincap_id joincap_i64 check_fields
read_fields (f0 ∷ f1 ∷ f2 ∷ f3 ∷ f4 ∷ f5 ∷ f6 ∷ f7 ∷ []) = do
  agent ← or_malformed (joincap_id f0)
  session ← or_malformed (joincap_id f1)
  room ← or_malformed (joincap_i64 f2)
  epoch ← or_malformed (hex64 f3)
  gen ← or_malformed (joincap_i64 f4)
  iat ← or_malformed (joincap_i64 f5)
  exp ← or_malformed (joincap_i64 f6)
  nonce ← or_malformed (joincap_id f7)
  check_fields
      (record {
        agent = agent;
        session = session;
        room = room;
        epoch = epoch;
        generation = 0;
        iat = iat;
        exp = exp;
        nonce = nonce;
      })
      gen
read_fields fields = refused cap_malformed

module _ (crypto : Crypto) where
  open crypto use {hmac_sha256, memcmp_equal}

  -- The MAC of the signing input, against the one given.
  unfoldable pub check_mac : List ℕ → CString → List ℕ → Checked (Unit {0})
  check_mac key signing mac_given = do
    mac_want ← or_malformed (hmac_sha256 key signing)
    require (length mac_want == mac_len) cap_malformed
    require (memcmp_equal mac_given mac_want) cap_bad_signature

  -- The signature and then the payload, once the text is split at its last dot.
  unfoldable pub parse_parts : List ℕ → CString → CString → Checked Joincap
  unfolding check_mac read_fields split_bar
  parse_parts key signing b64_mac = do
    mac_given ← or_malformed (b64url_decode mac_len b64_mac)
    require (length mac_given == mac_len) cap_malformed
    check_mac key signing mac_given
    payload ← or_malformed (b64url_decode payload_max (drop 3 signing))
    require (not (has_nul payload)) cap_malformed
    read_fields (split_bar payload [])

  -- `slv_joincap_parse`, for pointers that are not NULL.
  unfoldable pub joincap_parse : CString → List ℕ → Checked Joincap
  unfolding split_last_dot parse_parts
  joincap_parse text key = do
    require (not (length key == 0)) cap_malformed
    require (not (length text == 0 || ltb max_len (length text))) cap_malformed
    require (str_eq (take 3 text) prefix) cap_malformed
    parts ← or_malformed (split_last_dot text)
    require (ltb 3 (length parts.0)) cap_malformed
    parse_parts key parts.0 parts.1
