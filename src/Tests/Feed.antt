-- ===== src/Tests/Feed.antt =====
-- A visibility batch at a room with two sessions, in the functions of src/janus_slvoice.c.
use legion_voice_mixer.Prelude.{
  ℕ, ◌%◌, ◌≡◌, refl, Bool, true, false, not, ◌&&◌, [], ◌∷◌, some, CString, codes, str_eq, length,
  map, ◌^◌, if◌then◌else◌, arith,
}
use legion_voice_mixer.Prelude.Int.{pos}
use legion_voice_mixer.Glib.{StrMap}
use legion_voice_mixer.Columns.{op_add, op_replace, col_has}
use legion_voice_mixer.Deferred.{init}
use legion_voice_mixer.Deferred.Put.{IsValid}
use legion_voice_mixer.Deferred.History.{deposits}
use legion_voice_mixer.Visibility.{Settings, VisBatch, VisRecord, Member, Room, vis_enforced}
use legion_voice_mixer.Visibility.Channels.{update_excluded}
use legion_voice_mixer.Visibility.Transitions.{noted, noted-update_excluded}
use legion_voice_mixer.Visibility.Batch.{by_display, apply_visbatch}
use legion_voice_mixer.Visibility.Applied.{own_row}
use legion_voice_mixer.Visibility.Deferral.{deferrals, apply_visbatch-deferrals}
use legion_voice_mixer.Visibility.Authority.{named, vis_adopt, batch_authority}
use legion_voice_mixer.Visibility.Guard.{in_order}
use legion_voice_mixer.Visibility.Handle.{handle_batch}
use legion_voice_mixer.Visibility.Effect.{is_outdated, handle_batch-own_row, handle_batch-refused}
use legion_voice_mixer.Tests.Tables.{list_sets, list_maps}

abbrev pub alice : CString
alice = codes "a"

abbrev pub bob : CString
bob = codes "b"

abbrev pub eve : CString
eve = codes "e"

abbrev pub settings : Settings
settings = record { fail_closed = true; stale_ms = 8000 }

abbrev pub member : ℕ → CString → Member list_sets
member id display = record { user_id = id; display = some display; excluded = []; mod_muted = [] }

abbrev pub maps : StrMap (VisRecord list_sets)
maps = list_maps (VisRecord list_sets)

abbrev pub room : Room list_sets maps
room = record {
  participants = member 1 alice ∷ member 2 bob ∷ [];
  vis_epoch = 0;
  vis_last_ts = pos 0;
  vis_last_mode = op_add;
  vis_have_batch = false;
  vis_joins_since_snapshot = 2;
  vis_dropped_listener_entries = 0;
  vis_last_batch_dropped_listeners = 0;
  vis_deferred = init;
  vis_declared = true;
  vis_auth_epoch = 7;
  vis_policy_gen = 1;
  vis_auth_last_us = pos 1000;
  vis_records = [];
  vis_stale_epoch_rejects = 0;
  vis_stale_generation_rejects = 0;
  vis_records_full = 0;
}

-- Alice and Eve, who has not joined, are not to hear Bob.
abbrev pub snapshot : VisBatch
snapshot = record {
  op = op_replace;
  room = pos 5;
  entries =
      record { listener = alice; excl = bob ∷ [] }
      ∷ record { listener = eve; excl = bob ∷ [] }
      ∷ [];
  mute_entries = [];
  n_skipped = 0;
  has_epoch = true;
  room_epoch = 7;
  policy_generation = 2;
  base = [];
}

abbrev pub yes : CString → Bool
yes s = true

abbrev pub nobody : CString → Bool
nobody s = false

-- The first session no longer hears Bob, and the second is untouched.
snapshot_excludes :
    map
      (λ l. col_has l.excluded bob)
      (handle_batch list_sets maps settings yes snapshot
        (pos 2000)
        (pos 2000)
        (pos 2000)
        (pos 2000)
        room).room.participants
    ≡ true ∷ false ∷ []
unfolding handle_batch vis_adopt vis_enforced str_eq col_has
snapshot_excludes = refl

not_refused : (batch_authority list_sets maps settings snapshot (pos 2000) room).out.refused ≡ false
unfolding batch_authority vis_adopt vis_enforced str_eq
not_refused = refl

pub is_in_order :
    in_order list_sets maps settings
      (batch_authority list_sets maps settings snapshot (pos 2000) room)
    ≡ true
unfolding batch_authority vis_adopt vis_enforced str_eq
is_in_order = refl

pub names_alice : col_has (named list_sets snapshot) alice ≡ true
unfolding col_has str_eq
names_alice = refl

pub init-IsValid : IsValid init.entries
unfolding init
init-IsValid = record { unique = tt; bounded = omega arith; held = tt }

handle_batch-own_row_example :
    (map
        (λ l. col_has l.excluded bob)
        (handle_batch list_sets maps settings yes snapshot
          (pos 2000)
          (pos 2000)
          (pos 2000)
          (pos 2000)
          room).room.participants
      ≡ map
          (λ l.
            own_row
              (col_has (batch_authority list_sets maps settings snapshot (pos 2000) room).out.skip)
              op_replace
              bob
              l.display
              snapshot.entries
              (col_has l.excluded bob))
          room.participants)
    × (map
          (λ l. col_has l.mod_muted bob)
          (handle_batch list_sets maps settings yes snapshot
            (pos 2000)
            (pos 2000)
            (pos 2000)
            (pos 2000)
            room).room.participants
        ≡ map
            (λ l.
              own_row
                (col_has
                  (batch_authority list_sets maps settings snapshot (pos 2000) room).out.skip)
                op_replace
                bob
                l.display
                []
                (col_has l.mod_muted bob))
            room.participants)
handle_batch-own_row_example =
    handle_batch-own_row list_sets maps settings yes snapshot (pos 2000) (pos 2000) (pos 2000)
      (pos 2000) room bob not_refused

-- The batch that the room applied last, once more.
abbrev repeated : VisBatch
repeated = record snapshot { policy_generation = 1 }

repeated_refused :
    (batch_authority list_sets maps settings repeated (pos 2000) room).out.refused ≡ true
unfolding batch_authority vis_adopt vis_enforced
repeated_refused = refl

handle_batch-refused_example :
    ((batch_authority list_sets maps settings repeated (pos 2000) room).out.refused ≡ (
      vis_enforced list_sets maps settings room
      && is_outdated list_sets maps settings yes repeated
          (pos 2000)
          (pos 2000)
          (pos 2000)
          (pos 2000)
          room))
    × (if vis_enforced list_sets maps settings room
          && is_outdated list_sets maps settings yes repeated
              (pos 2000)
              (pos 2000)
              (pos 2000)
              (pos 2000)
              room
        then ((handle_batch list_sets maps settings yes repeated
              (pos 2000)
              (pos 2000)
              (pos 2000)
              (pos 2000)
              room).room.participants
            ≡ room.participants)
          × ((handle_batch list_sets maps settings yes repeated
                (pos 2000)
                (pos 2000)
                (pos 2000)
                (pos 2000)
                room).room.vis_deferred
              ≡ room.vis_deferred)
          × ((handle_batch list_sets maps settings yes repeated
                (pos 2000)
                (pos 2000)
                (pos 2000)
                (pos 2000)
                room).told
              ≡ [])
        else Unit {0})
handle_batch-refused_example =
    handle_batch-refused list_sets maps settings yes repeated (pos 2000) (pos 2000) (pos 2000)
      (pos 2000) room

noted-update_excluded_example :
    noted bob false (update_excluded list_sets yes op_replace (bob ∷ []) (eve ∷ [])).trans ≡ (
      not (col_has (eve ∷ []) bob)
      && col_has (update_excluded list_sets yes op_replace (bob ∷ []) (eve ∷ [])).held bob)
noted-update_excluded_example =
    noted-update_excluded list_sets yes op_replace (bob ∷ []) (eve ∷ []) bob false (omega arith)
      (omega arith) (omega arith)

apply_visbatch-deferrals_example :
    ((apply_visbatch list_sets maps settings yes snapshot nobody
        (pos 2000)
        (pos 2000)
        room).room.vis_deferred
      ≡ deposits init (
          deferrals yes nobody
            (by_display list_sets room.participants)
            op_replace
            false
            snapshot.entries))
    × ((apply_visbatch list_sets maps settings yes snapshot nobody (pos 2000) (pos 2000) room).count
        ≡ length (
            deferrals yes nobody
              (by_display list_sets room.participants)
              op_replace
              false
              snapshot.entries)
          % 2 ^ 64)
apply_visbatch-deferrals_example =
    apply_visbatch-deferrals list_sets maps settings yes nobody (pos 2000) snapshot (pos 2000) room
