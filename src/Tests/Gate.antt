-- ===== src/Tests/Gate.antt =====
-- The gate of a join in src/janus_slvoice.c, with the capability and the MAC of `Capability`.
use legion_voice_mixer.Prelude.{◌≡◌, ◌≢◌, refl, [], some, CString, codes, str_eq, replicate}
use legion_voice_mixer.Prelude.Int.{pos, ◌+ℤ◌}
use legion_voice_mixer.Joincap.{cap_ok, cap_replayed}
use legion_voice_mixer.Joincap.Mint.{mint}
use legion_voice_mixer.Joincap.Nonces.{nonce_take}
use legion_voice_mixer.Joincap.Replay.{takes}
use legion_voice_mixer.Joincap.Window.{nonce_take-last_second}
use legion_voice_mixer.Joincap.Gate.{Gate, verify_text}
use legion_voice_mixer.Joincap.Admission.{Admitted, verify_text-Admitted, verify_text_once}
use legion_voice_mixer.Tests.Capability.{
  zero_mac, toy, key, payload, parsed, empty, parses_minted, first_taken,
}

abbrev pub gate : Gate
gate = record {
  nonces = empty;
  seen = 0;
  accepted_count = 0;
  skewed = 0;
  refusals = replicate 11 0;
  epoch_ahead = 0;
  no_epoch = 0;
  ahead = 0;
  behind = 0;
}

abbrev pub text : CString
text = mint payload zero_mac

-- The join that the capability is for, at second 130 of its window.
pub admits :
    (verify_text toy
      (some key)
      text
      (some (codes "agent"))
      (some (codes "session"))
      (pos 5)
      255
      3
      (pos 130)
      gate).0
    ≡ cap_ok
unfolding verify_text str_eq
admits = rw parses_minted refl

verify_text-Admitted_example :
    Admitted toy key text (some (codes "agent")) (some (codes "session")) (pos 5) 255 (pos 130) gate
verify_text-Admitted_example =
    verify_text-Admitted toy key text (some (codes "agent")) (some (codes "session")) (pos 5) 255 3
      (pos 130) gate admits

abbrev after : Gate
after =
    (verify_text toy (some key) text (some (codes "agent")) (some (codes "session")) (pos 5) 255 3
      (pos 130) gate).1

verify_text_once_example :
    (verify_text toy
      (some key)
      text
      (some (codes "agent"))
      (some (codes "session"))
      (pos 5)
      255
      3
      (pos 150)
      after).0
    ≢ cap_ok
unfolding ◌+ℤ◌
verify_text_once_example =
    verify_text_once toy key text parsed (some (codes "agent")) (some (codes "session"))
      (some (codes "agent")) (some (codes "session")) (pos 5) (pos 5) 255 3 255 3 (pos 130)
      (pos 150) gate after [] parses_minted admits (unfold takes in refl) tt refl

nonce_take-last_second_example :
    (nonce_take
      (nonce_take empty (codes "n1") (pos 160) (pos 100)).1
      (codes "n1")
      (pos 200)
      (pos 160)).0
    ≢ cap_replayed
nonce_take-last_second_example =
    nonce_take-last_second empty (codes "n1") (pos 160) (pos 100) (pos 200) first_taken
