-- ===== src/Tests/Deltas.antt =====
-- Columns that arrive before their listener, and a delta on a wrong base, at the room of `Feed`.
use legion_voice_mixer.Prelude.{◌≡◌, refl, true, false, List, [], ◌∷◌, none, some, str_eq, arith}
use legion_voice_mixer.Prelude.Int.{pos}
use legion_voice_mixer.Columns.{op_add, op_replace, col_has}
use legion_voice_mixer.Deferred.{init, get}
use legion_voice_mixer.Deferred.Contract.{column}
use legion_voice_mixer.Deferred.History.{Deposit, deposits}
use legion_voice_mixer.Visibility.{VisBatch, VisRecord, Room, vis_enforced}
use legion_voice_mixer.Visibility.Authority.{find_base, named, vis_adopt, batch_authority}
use legion_voice_mixer.Visibility.Guard.{in_order}
use legion_voice_mixer.Visibility.Join.{replay_deferred}
use legion_voice_mixer.Visibility.Late.{own_held, replay_deferred-as_if_present}
use legion_voice_mixer.Tests.Tables.{list_sets}
use legion_voice_mixer.Visibility.Bases.{matches, batch_authority-stale}
use legion_voice_mixer.Tests.Feed.{
  alice, bob, eve, settings, member, maps, room, snapshot, init-IsValid,
}

-- Eve's column arrives before she does.
abbrev early : List Deposit
early =
    record { alloc = true; listener = eve; op = op_replace; src = bob ∷ []; is_mute = false } ∷ []

abbrev waiting : Room list_sets maps
waiting = record room { vis_deferred = deposits init early }

replay_deferred-as_if_present_example :
    (col_has (replay_deferred list_sets maps settings waiting (member 3 eve)).1.excluded bob
      ≡ own_held eve false bob early (col_has (column eve false init) bob))
    × (col_has (replay_deferred list_sets maps settings waiting (member 3 eve)).1.mod_muted bob
        ≡ own_held eve true bob early (col_has (column eve true init) bob))
    × (get (replay_deferred list_sets maps settings waiting (member 3 eve)).0.vis_deferred eve
        ≡ none)
unfolding col_has init
replay_deferred-as_if_present_example =
    replay_deferred-as_if_present list_sets maps settings waiting (member 3 eve) eve bob init early
      refl refl (omega arith) (refl, tt) init-IsValid (omega arith)

-- A delta for Alice.
abbrev delta : VisBatch
delta = record snapshot { op = op_add }

-- Alice's record is of generation 1, and the delta claims no base for her.
abbrev held : VisRecord list_sets
held = record {
  epoch = 7;
  listener_gen = 1;
  confirmed_us = pos 1000;
  stale = false;
  excl = eve ∷ [];
  mute = [];
}

abbrev armed_room : Room list_sets maps
armed_room = record room { vis_records = (alice, held) ∷ [] }

deltas_ordered :
    in_order list_sets maps settings
      (batch_authority list_sets maps settings delta (pos 2000) armed_room)
    ≡ true
unfolding batch_authority vis_adopt vis_enforced str_eq
deltas_ordered = refl

delta_names : col_has (named list_sets delta) alice ≡ true
unfolding col_has str_eq
delta_names = refl

other_base :
    matches list_sets maps settings delta alice
      (vis_adopt list_sets maps settings 7 (pos 2000) armed_room).0.vis_auth_epoch
      (maps.lookup (vis_adopt list_sets maps settings 7 (pos 2000) armed_room).0.vis_records alice)
    ≡ false
unfolding vis_adopt str_eq find_base
other_base = refl

batch_authority-stale_example :
    (col_has (batch_authority list_sets maps settings delta (pos 2000) armed_room).out.stale alice
      ≡ true)
    × (maps.lookup
          (batch_authority list_sets maps settings delta (pos 2000) armed_room).room.vis_records
          alice
        ≡ some (record held { stale = true }))
    × (matches list_sets maps settings delta alice
          (batch_authority list_sets maps settings delta (pos 2000) armed_room).room.vis_auth_epoch
          (maps.lookup
            (batch_authority list_sets maps settings delta (pos 2000) armed_room).room.vis_records
            alice)
        ≡ false)
unfolding vis_adopt str_eq
batch_authority-stale_example =
    batch_authority-stale list_sets maps settings delta (pos 2000) armed_room alice refl refl
      deltas_ordered delta_names other_base
