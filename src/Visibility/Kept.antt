-- ===== src/Visibility/Kept.antt =====
-- What the authority check leaves alone: the sessions, and once its loop runs the verdict on the stamp.
use legion_voice_mixer.Prelude.{
  ℕ, ◌%◌, ◌^◌, ◌≡◌, refl, Bool, [], ◌∷◌, CString, arith, ◌∙◌, Option-cases, inl, inr,
}
use legion_voice_mixer.Prelude.Int.{ℤ}
use legion_voice_mixer.Glib.{StrSet, StrMap}
use legion_voice_mixer.Columns.{Column}
use legion_voice_mixer.Visibility.{Settings, VisBatch, VisRecord, Room, vis_enforced}
use legion_voice_mixer.Visibility.Channels.{for_each}
use legion_voice_mixer.Visibility.Authority.{
  no_outcome, named, Checking, vis_adopt, check_generation, batch_authority, check_listener,
  arm_listener, advance_listener,
}
use legion_voice_mixer.Visibility.Settled.{check_all}

module _ (sets : StrSet) (maps : StrMap (VisRecord sets)) (settings : Settings) where
  participants-check_listener :
      (enforced : Bool) (vb : VisBatch) (gen : ℕ) (now : ℤ) (s : CString)
      (c : Checking sets maps settings)
      → (check_listener sets maps settings enforced vb gen now s c).room.participants
        ≡ c.room.participants
  unfolding check_listener arm_listener advance_listener
  participants-check_listener enforced vb gen now s c =
      elim (Option-cases (maps.lookup c.room.vis_records s)) [
        | inl n ↦ ground (arith, n)
        | inr (r, e) ↦ ground (arith, e)
      ]

  participants-check_all :
      (enforced : Bool) (vb : VisBatch) (gen : ℕ) (now : ℤ) (ks : Column)
      (c : Checking sets maps settings)
      → (for_each (check_listener sets maps settings enforced vb gen now) ks c).room.participants
        ≡ c.room.participants
  participants-check_all enforced vb gen now [] c = refl
  participants-check_all enforced vb gen now (s ∷ ks) c =
      participants-check_all enforced vb gen now ks
        (check_listener sets maps settings enforced vb gen now s c)
      ∙ participants-check_listener enforced vb gen now s c

  out-check_listener :
      (enforced : Bool) (vb : VisBatch) (gen : ℕ) (now : ℤ) (s : CString)
      (c : Checking sets maps settings)
      → ((check_listener sets maps settings enforced vb gen now s c).out.verdict ≡ c.out.verdict)
        × ((check_listener sets maps settings enforced vb gen now s c).out.stale_generation
            ≡ c.out.stale_generation)
  unfolding check_listener arm_listener advance_listener
  out-check_listener enforced vb gen now s c =
      elim (Option-cases (maps.lookup c.room.vis_records s)) [
        | inl n ↦ ground (arith, n)
        | inr (r, e) ↦ ground (arith, e)
      ]

  -- The loop over the listeners leaves the verdict on the stamp alone.
  pub out-check_all :
      (enforced : Bool) (vb : VisBatch) (gen : ℕ) (now : ℤ) (ks : Column)
      (c : Checking sets maps settings)
      → ((check_all sets maps settings enforced vb gen now ks c).out.verdict ≡ c.out.verdict)
        × ((check_all sets maps settings enforced vb gen now ks c).out.stale_generation
            ≡ c.out.stale_generation)
  out-check_all enforced vb gen now [] c = (refl, refl)
  out-check_all enforced vb gen now (s ∷ ks) c =
      let step = check_listener sets maps settings enforced vb gen now s c in
      let (v, g) = out-check_listener enforced vb gen now s c in
      let (w, h) = out-check_all enforced vb gen now ks step in (w ∙ v, h ∙ g)

  participants-vis_adopt :
      (incoming : ℕ) (now : ℤ) (room : Room sets maps)
      → (vis_adopt sets maps settings incoming now room).0.participants ≡ room.participants
  unfolding vis_adopt
  participants-vis_adopt incoming now room = ground arith

  -- The check changes no session.
  pub participants-batch_authority :
      (vb : VisBatch) (now : ℤ) (room : Room sets maps)
      → (batch_authority sets maps settings vb now room).room.participants ≡ room.participants
  unfolding batch_authority check_generation
  participants-batch_authority vb now room =
      let adopted = (vis_adopt sets maps settings vb.room_epoch now room).0 in
      let v = (vis_adopt sets maps settings vb.room_epoch now room).1 in
      let gen = vb.policy_generation % 2 ^ 32 in
      ground (
        arith,
        participants-vis_adopt vb.room_epoch now room,
        participants-check_all (vis_enforced sets maps settings room) vb gen now
            (sets.keys (named sets vb))
            (record {
              room = record adopted { vis_policy_gen = gen };
              out = record no_outcome { verdict = v };
            }),
      )
