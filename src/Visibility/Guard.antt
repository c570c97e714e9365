-- ===== src/Visibility/Guard.antt =====
-- The authority check as a whole: which stamps are accepted, and what an accepted batch leaves.
use legion_voice_mixer.Prelude.{
  ℕ, ◌%◌, ◌^◌, ◌≤◌, ◌<◌, ◌≡◌, ◌≢◌, ◌⊎◌, Bool, true, [], not, ◌&&◌, CString, ltb, ◌==◌,
  if◌then◌else◌, arith,
}
use legion_voice_mixer.Prelude.Int.{ℤ}
use legion_voice_mixer.Glib.{StrSet, StrMap}
use legion_voice_mixer.Columns.{col_has}
use legion_voice_mixer.Deferred.{next}
use legion_voice_mixer.Authority.{epoch_decide, epoch_stale, authority_stale}
use legion_voice_mixer.Visibility.{Settings, VisBatch, VisRecord, Room, stale_us, vis_enforced}
use legion_voice_mixer.Visibility.Authority.{
  max_records, is_stale, no_outcome, named, Checking, vis_adopt, check_generation, batch_authority,
}
use legion_voice_mixer.Visibility.Settled.{settled, check_all-settled}

module _ (sets : StrSet) (maps : StrMap (VisRecord sets)) (settings : Settings) where
  open maps use {size, size_empty}

  -- Has the room an epoch, and is it this one?
  abbrev pub is_same : ℕ → Room sets maps → Bool
  is_same incoming room = not (room.vis_auth_epoch == 0) && incoming == room.vis_auth_epoch

  -- A message of a lower epoch, while the room's authority is fresh, changes nothing but the count of such
  -- messages. Any other message is the room's latest sign of life, under its own epoch: of the same epoch
  -- it keeps every record; of another one, or of any where the room had adopted none, it disarms them all
  -- and restarts the generations.
  pub vis_adopt_lem :
      (incoming : ℕ) (now : ℤ) (room : Room sets maps)
      → (if ltb incoming room.vis_auth_epoch
            && not (authority_stale room.vis_auth_last_us now (stale_us settings))
          then vis_adopt sets maps settings incoming now room ≡ (
            record room { vis_stale_epoch_rejects = next room.vis_stale_epoch_rejects },
            epoch_stale,
          )
          else ((vis_adopt sets maps settings incoming now room).0.vis_auth_epoch ≡ incoming)
            × ((vis_adopt sets maps settings incoming now room).0.vis_auth_last_us ≡ now)
            × ((vis_adopt sets maps settings incoming now room).0.vis_records
                ≡ (if is_same incoming room then room.vis_records else maps.empty))
            × ((vis_adopt sets maps settings incoming now room).0.vis_policy_gen
                ≡ (if is_same incoming room then room.vis_policy_gen else 0)))
  unfolding vis_adopt epoch_decide
  vis_adopt_lem incoming now room = ground arith

  -- A check never leaves more than 1024 records, if there were no more before it.
  pub batch_authority_bounded :
      (vb : VisBatch) (now : ℤ) (room : Room sets maps)
      → size room.vis_records ≤ max_records
      → size (batch_authority sets maps settings vb now room).room.vis_records ≤ max_records
  unfolding batch_authority vis_adopt check_generation
  batch_authority_bounded vb now room h =
      let enforced = vis_enforced sets maps settings room in
      let adopted = (vis_adopt sets maps settings vb.room_epoch now room).0 in
      let v = (vis_adopt sets maps settings vb.room_epoch now room).1 in
      let gen = vb.policy_generation % 2 ^ 32 in
      let (_, _, b, _, _, _) =
        check_all-settled sets maps settings enforced vb gen now [] (sets.keys (named sets vb))
          (record {
            room = record adopted { vis_policy_gen = gen };
            out = record no_outcome { verdict = v };
          }) in
      ground (arith, b, size_empty)

  -- Is the batch's stamp neither of a stale epoch nor out of order?
  abbrev pub in_order : Checking sets maps settings → Bool
  in_order c = not (is_stale c.out.verdict) && not c.out.stale_generation

  -- The generation that a stamped batch has, cast to 32 bits.
  abbrev pub gen_of : VisBatch → ℕ
  gen_of vb = vb.policy_generation % 2 ^ 32

  -- A stamped batch in order leaves every listener that it names settled: answered as stale, answered as
  -- unarmed, or with a record of the adopted epoch, of this generation and confirmed now. Its entries
  -- for a listener are skipped exactly when fail-closed is in force and the listener is answered as stale.
  pub batch_authority-settled :
      (vb : VisBatch) (now : ℤ) (room : Room sets maps) (k : CString)
      → vb.has_epoch ≡ true
      → in_order (batch_authority sets maps settings vb now room) ≡ true
      → sets.contains (named sets vb) k ≡ true
      → (settled sets maps settings
            (batch_authority sets maps settings vb now room).room.vis_auth_epoch
            (gen_of vb)
            now
            k
            (batch_authority sets maps settings vb now room)
          ≡ true)
        × (col_has (batch_authority sets maps settings vb now room).out.skip k ≡ (
            vis_enforced sets maps settings room
            && col_has (batch_authority sets maps settings vb now room).out.stale k))
  unfolding batch_authority check_generation col_has
  batch_authority-settled vb now room k stamped ok named_k =
      let enforced = vis_enforced sets maps settings room in
      let adopted = (vis_adopt sets maps settings vb.room_epoch now room).0 in
      let v = (vis_adopt sets maps settings vb.room_epoch now room).1 in
      let (a, b, _, _, _, d) =
        check_all-settled sets maps settings enforced vb (gen_of vb) now k
          (sets.keys (named sets vb))
          (record {
            room = record adopted { vis_policy_gen = gen_of vb };
            out = record no_outcome { verdict = v };
          }) in
      ground (arith, a, b, d, sets.has_keys (named sets vb) k)

  -- A stamped batch in order, of an epoch that is not zero, leaves the room under its own epoch and generation, and a generation of the
  -- same epoch is above the one before it.
  pub batch_authority-generation :
      (vb : VisBatch) (now : ℤ) (room : Room sets maps)
      → vb.has_epoch ≡ true
      → vb.room_epoch ≢ 0
      → in_order (batch_authority sets maps settings vb now room) ≡ true
      → ((batch_authority sets maps settings vb now room).room.vis_auth_epoch ≡ vb.room_epoch)
        × ((batch_authority sets maps settings vb now room).room.vis_policy_gen ≡ gen_of vb)
        × ((vb.room_epoch ≢ room.vis_auth_epoch) ⊎ (room.vis_policy_gen < gen_of vb))
  unfolding batch_authority check_generation vis_adopt epoch_decide
  batch_authority-generation vb now room stamped real ok =
      let enforced = vis_enforced sets maps settings room in
      let adopted = (vis_adopt sets maps settings vb.room_epoch now room).0 in
      let v = (vis_adopt sets maps settings vb.room_epoch now room).1 in
      let (a, _, _, g, _, _) =
        check_all-settled sets maps settings enforced vb (gen_of vb) now []
          (sets.keys (named sets vb))
          (record {
            room = record adopted { vis_policy_gen = gen_of vb };
            out = record no_outcome { verdict = v };
          }) in
      ground (arith, a, g)
