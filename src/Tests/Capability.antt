-- ===== src/Tests/Capability.antt =====
-- The join capability of src/joincap.c at work, under a toy MAC.
use legion_voice_mixer.Prelude.{
  ℕ, ◌≡◌, ◌∙◌, refl, List, [], ◌∷◌, none, some, CString, codes, str_eq, str_eq_iff, replicate,
  arith,
}
use legion_voice_mixer.Prelude.Int.{pos, ◌-ℤ◌}
use legion_voice_mixer.Libc.{strtol}
use legion_voice_mixer.Hex.{hex64, hex_digit, push_digit}
use legion_voice_mixer.Base64.{b64url_decode}
use legion_voice_mixer.Joincap.{Joincap, cap_ok, cap_replayed, joincap_check, used_skew}
use legion_voice_mixer.Joincap.Parse.{Crypto, accepted, joincap_parse, read_fields, split_bar}
use legion_voice_mixer.Joincap.Signed.{IsSigned, joincap_parse-IsSigned}
use legion_voice_mixer.Joincap.Mint.{mint, joincap_parse-mint}
use legion_voice_mixer.Joincap.Nonces.{NonceStore, nonce_take}
use legion_voice_mixer.Joincap.Replay.{takes, nonce_take_once}

-- RFC 4648: "foobar".
decodes_foobar : b64url_decode 6 (codes "Zm9vYmFy") ≡ some (codes "foobar")
unfolding b64url_decode
decodes_foobar = refl

rejects_padding : b64url_decode 6 (codes "Zg==") ≡ none
unfolding b64url_decode
rejects_padding = refl

abbrev pub zero_mac : List ℕ
zero_mac = replicate 32 0

-- A MAC that is the same for every message.
abbrev pub toy : Crypto
toy = record {
  hmac_sha256 = λ key message. some zero_mac;
  memcmp_equal = str_eq;
  memcmp_equal_iff = str_eq_iff;
}

abbrev pub key : List ℕ
key = 7 ∷ []

abbrev pub payload : List ℕ
payload = codes "agent|session|5|00000000000000ff|3|100|160|nonce"

abbrev pub parsed : Joincap
parsed = record {
  agent = codes "agent";
  session = codes "session";
  room = pos 5;
  epoch = 255;
  generation = 3;
  iat = pos 100;
  exp = pos 160;
  nonce = codes "nonce";
}

reads_payload : read_fields (split_bar payload []) ≡ accepted parsed
unfolding read_fields split_bar hex64 hex_digit push_digit strtol
reads_payload = refl

joincap_parse-mint_example :
    joincap_parse toy (mint payload zero_mac) key ≡ read_fields (split_bar payload [])
joincap_parse-mint_example =
    joincap_parse-mint toy key payload zero_mac (λ e. ground (arith, e)) (omega arith) (omega arith)
      (omega arith) (omega arith) refl refl refl

pub parses_minted : joincap_parse toy (mint payload zero_mac) key ≡ accepted parsed
parses_minted =
    joincap_parse-mint toy key payload zero_mac (λ e. ground (arith, e)) (omega arith) (omega arith)
      (omega arith) (omega arith) refl refl refl
    ∙ reads_payload

joincap_parse-IsSigned_example : IsSigned toy (mint payload zero_mac) key parsed
joincap_parse-IsSigned_example =
    joincap_parse-IsSigned toy (mint payload zero_mac) key parses_minted

pub late_ok :
    joincap_check parsed (some (codes "agent")) (some (codes "session")) (pos 5) (pos 220) (pos 120)
    ≡ cap_ok
unfolding joincap_check str_eq
late_ok = refl

late_skew : used_skew parsed (pos 220) ≡ some (pos 60)
unfolding used_skew ◌-ℤ◌
late_skew = refl

abbrev pub empty : NonceStore
empty = record { entries = []; taken = 0; replayed = 0; full = 0; expired = 0 }

pub first_taken : (nonce_take empty (codes "n1") (pos 160) (pos 100)).0 ≡ cap_ok
unfolding nonce_take
first_taken = refl

nonce_take_once_example :
    (nonce_take
      (takes
        (nonce_take empty (codes "n1") (pos 160) (pos 100)).1
        (record { nonce = codes "n2"; expires_at = pos 170; now_s = pos 120 } ∷ []))
      (codes "n1")
      (pos 300)
      (pos 130)).0
    ≡ cap_replayed
nonce_take_once_example =
    nonce_take_once empty (codes "n1") (pos 160) (pos 100)
      (record { nonce = codes "n2"; expires_at = pos 170; now_s = pos 120 } ∷ []) (pos 300)
      (pos 130) first_taken (refl, tt) refl

abbrev one_letter : CString
one_letter = b'n' ∷ []
