-- ===== src/Tests/Media.antt =====
-- The jitter buffer of src/janus_slvoice.c at work.
use legion_voice_mixer.Prelude.{◌≡◌, refl, true, false, [], ◌∷◌, ◌++◌, replicate, arith}
use legion_voice_mixer.Jitter.{Jitter, no_slot, pulled_frame, jb_pull, jb_insert}
use legion_voice_mixer.Jitter.Laws.{IsValid}
use legion_voice_mixer.Jitter.Playout.{pulls, jb_insert-plays}

abbrev fresh : Jitter
fresh = record {
  slots = replicate 128 no_slot;
  have_first = false;
  primed = false;
  first_seq = 0;
  newest = 0;
  next_seq = 0;
}

fresh-IsValid : IsValid fresh
fresh-IsValid = record {
  all_slots = refl;
  first_fits = omega arith;
  newest_fits = omega arith;
  next_fits = omega arith;
}

-- The cursor stands at 65535, and the newest number has wrapped to 1.
abbrev playing : Jitter
playing = record fresh {
  slots = replicate 127 no_slot ++ record { seq = 65535; payload = 9 ∷ [] } ∷ [];
  have_first = true;
  primed = true;
  first_seq = 65530;
  newest = 1;
  next_seq = 65535;
}

playing-IsValid : IsValid playing
playing-IsValid = record {
  all_slots = refl;
  first_fits = omega arith;
  newest_fits = omega arith;
  next_fits = omega arith;
}

-- A packet for the number after the cursor's, past the wrap, is the second that is played.
jb_insert-plays_example :
    (jb_pull (pulls 1 (jb_insert playing 0 (4 ∷ 5 ∷ [])))).0 ≡ pulled_frame (4 ∷ 5 ∷ [])
jb_insert-plays_example =
    jb_insert-plays playing 1 (4 ∷ 5 ∷ []) playing-IsValid refl refl (omega arith) (omega arith)
      (omega arith) (omega arith) (omega arith)
