-- ===== src/Tests/Stamps.antt =====
-- The stamp of a batch, checked at the room of `Feed`.
use legion_voice_mixer.Prelude.{ℕ, ◌≡◌, ◌≢◌, ◌<◌, ◌⊎◌, refl, true, ◌&&◌, arith}
use legion_voice_mixer.Prelude.Int.{pos}
use legion_voice_mixer.Columns.{col_has}
use legion_voice_mixer.Authority.{epoch_stale, authority_stale}
use legion_voice_mixer.Deferred.{next}
use legion_voice_mixer.Visibility.{vis_enforced}
use legion_voice_mixer.Visibility.Authority.{vis_adopt, batch_authority}
use legion_voice_mixer.Visibility.Settled.{settled}
use legion_voice_mixer.Visibility.Guard.{
  vis_adopt_lem, batch_authority-settled, batch_authority-generation,
}
use legion_voice_mixer.Tests.Tables.{list_sets}
use legion_voice_mixer.Tests.Feed.{alice, settings, maps, room, snapshot, is_in_order, names_alice}

-- A message of an older instance is turned down.
vis_adopt_lem_example :
    vis_adopt list_sets maps settings 5 (pos 2000) room
    ≡ (record room { vis_stale_epoch_rejects = next 0 }, epoch_stale)
unfolding authority_stale
vis_adopt_lem_example = vis_adopt_lem list_sets maps settings 5 (pos 2000) room

batch_authority-settled_example :
    (settled list_sets maps settings
        (batch_authority list_sets maps settings snapshot (pos 2000) room).room.vis_auth_epoch
        2
        (pos 2000)
        alice
        (batch_authority list_sets maps settings snapshot (pos 2000) room)
      ≡ true)
    × (col_has (batch_authority list_sets maps settings snapshot (pos 2000) room).out.skip alice ≡ (
        vis_enforced list_sets maps settings room
        && col_has
            (batch_authority list_sets maps settings snapshot (pos 2000) room).out.stale
            alice))
batch_authority-settled_example =
    batch_authority-settled list_sets maps settings snapshot (pos 2000) room alice refl is_in_order
      names_alice

batch_authority-generation_example :
    ((batch_authority list_sets maps settings snapshot (pos 2000) room).room.vis_auth_epoch ≡ 7)
    × ((batch_authority list_sets maps settings snapshot (pos 2000) room).room.vis_policy_gen ≡ 2)
    × ((◌≢◌ {A = ℕ} 7 7) ⊎ (1 < 2))
batch_authority-generation_example =
    batch_authority-generation list_sets maps settings snapshot (pos 2000) room refl (omega arith)
      is_in_order
