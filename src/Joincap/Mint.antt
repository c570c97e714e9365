-- ===== src/Joincap/Mint.antt =====
-- A capability as the sim mints it (the format in src/joincap.h), read back by the mixer.
use legion_voice_mixer.Prelude.{
  ℕ, ◌≤◌, ◌≡◌, ◌≢◌, refl, false, List, [], ◌∷◌, ◌++◌, none, some, CString, length, length-append,
  str_eq_refl, arith,
}
use legion_voice_mixer.Base64.Laws.{b64url_encode, Bytes, b64url_decode-encode}
use legion_voice_mixer.Base64.Bounds.{
  length-encode-le, length-encode-pos, NoDot, b64url_encode-NoDot,
}
use legion_voice_mixer.Joincap.Parse.{
  Crypto, accepted, mac_len, payload_max, max_len, prefix, split_last_dot, split_bar, has_nul,
  read_fields, check_mac, parse_parts, joincap_parse,
}

abbrev pub signing_input : List ℕ → CString
signing_input payload = prefix ++ b64url_encode payload

abbrev pub mint : List ℕ → List ℕ → CString
mint payload mac = signing_input payload ++ b'.' ∷ b64url_encode mac

split_last_dot-NoDot : (s : CString) → NoDot s → split_last_dot s ≡ none
unfolding split_last_dot
split_last_dot-NoDot [] h = refl
split_last_dot-NoDot (c ∷ cs) h = ground (arith, split_last_dot-NoDot cs h.1, h.0)

split_last_dot-append :
    (before after : CString)
    → NoDot after
    → split_last_dot (before ++ b'.' ∷ after) ≡ some (before, after)
unfolding split_last_dot
split_last_dot-append [] after h = ground (arith, split_last_dot-NoDot after h)
split_last_dot-append (c ∷ before) after h = ground (arith, split_last_dot-append before after h)

length-mint :
    (payload mac : List ℕ)
    → length payload ≤ payload_max
    → length mac ≡ mac_len
    → length (mint payload mac) ≤ max_len
length-mint payload mac h k = omega (
  arith,
  length-append (signing_input payload) (b'.' ∷ b64url_encode mac),
  length-encode-le payload,
  length-encode-le mac,
)

module _ (crypto : Crypto) where
  open crypto use {hmac_sha256, memcmp_equal, memcmp_equal_iff}

  check_mac-ok :
      (key : List ℕ) (signing : CString) (mac : List ℕ)
      → hmac_sha256 key signing ≡ some mac
      → length mac ≡ mac_len
      → check_mac crypto key signing mac ≡ accepted tt
  unfolding check_mac
  check_mac-ok key signing mac h l = ground (arith, h, l, memcmp_equal_iff mac mac)

  -- A capability minted under the mixer's key, from a payload of at most 511 bytes without a NUL, passes
  -- the size, shape and signature checks, and what the mixer then reads is that payload's fields.
  pub joincap_parse-mint :
      (key payload mac : List ℕ)
      → key ≢ []
      → Bytes payload
      → Bytes mac
      → length payload ≢ 0
      → length payload ≤ payload_max
      → has_nul payload ≡ false
      → length mac ≡ mac_len
      → hmac_sha256 key (signing_input payload) ≡ some mac
      → joincap_parse crypto (mint payload mac) key ≡ read_fields (split_bar payload [])
  unfolding joincap_parse parse_parts
  joincap_parse-mint key payload mac k bp bm ne room clean l h = ground (
    arith,
    split_last_dot-append (signing_input payload) (b64url_encode mac) (b64url_encode-NoDot mac),
    length-mint payload mac room l,
    length-encode-pos payload ne,
    check_mac-ok key (signing_input payload) mac h l,
    b64url_decode-encode mac_len mac bm (omega arith) (omega arith),
    b64url_decode-encode payload_max payload bp ne room,
    str_eq_refl prefix,
  )
