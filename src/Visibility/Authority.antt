-- ===== src/Visibility/Authority.antt =====
-- The check of a batch's stamp against the room's authority: `janus_slvoice_vis_adopt_locked`,
-- `janus_slvoice_vis_find_entry`, `janus_slvoice_vis_mirror_apply` and
-- `janus_slvoice_vis_batch_authority_locked` of src/janus_slvoice.c. The reply's lists are lists.
use legion_voice_mixer.Prelude.{
  ℕ, ◌%◌, ◌^◌, Bool, true, false, not, ◌&&◌, List, [], ◌∷◌, ◌++◌, Option, none, some, CString,
  str_eq, leb, ◌==◌, if◌then◌else◌,
}
use legion_voice_mixer.Prelude.Int.{ℤ, pos, negsuc}
use legion_voice_mixer.Glib.{StrSet, StrMap}
use legion_voice_mixer.Columns.{VisOp, op_add, op_remove, op_replace, Column}
use legion_voice_mixer.Deferred.{next}
use legion_voice_mixer.Authority.{EpochVerdict, epoch_decide, epoch_equal, epoch_stale}
use legion_voice_mixer.Visibility.{
  Settings, VisEntry, VisBase, VisBatch, VisRecord, Room, vis_enforced, stale_us,
}
use legion_voice_mixer.Visibility.Channels.{for_each}
use legion_voice_mixer.Visibility.Batch.{is_replace}

-- `SLV_VIS_MAX_RECORDS`
abbrev pub max_records : ℕ
max_records = 1024

abbrev pub is_stale : EpochVerdict → Bool
is_stale epoch_stale = true
is_stale _ = false

abbrev pub is_equal : EpochVerdict → Bool
is_equal epoch_equal = true
is_equal _ = false

-- `janus_slvoice_vis_find_entry`
unfoldable pub find_entry : List VisEntry → CString → Option VisEntry
find_entry [] listener = none
find_entry (e ∷ es) listener =
    let later = find_entry es listener in if str_eq e.listener listener then some e else later

-- The first generation that `base` has for a listener, and -1 when it has none.
unfoldable pub find_base : List VisBase → CString → ℤ
find_base [] listener = negsuc 0
find_base (b ∷ bs) listener =
    let later = find_base bs listener in if str_eq b.listener listener then b.gen else later

-- Is the base a generation, and this one? The cast is to 32 bits.
abbrev pub base_is : ℤ → ℕ → Bool
base_is (pos n) gen = n % 2 ^ 32 == gen
base_is (negsuc n) gen = false

-- `janus_slvoice_vis_outcome`
pub record Outcome : Type 0 where
  pub verdict : EpochVerdict
  pub stale_generation : Bool
  pub refused : Bool
  pub skip : Column
  pub stale : Column
  pub unarmed : Column

-- The outcome that the caller zeroes.
abbrev pub no_outcome : Outcome
no_outcome = record {
  verdict = epoch_equal;
  stale_generation = false;
  refused = false;
  skip = [];
  stale = [];
  unarmed = [];
}

module _ (sets : StrSet) where
  open sets use {Keys, empty, contains, add, remove, keys}

  -- `janus_slvoice_vis_mirror_apply`, for an entry that is not NULL.
  unfoldable pub mirror_apply : VisOp → Column → Keys → Keys
  mirror_apply op_remove src col = for_each (λ s set. remove set s) src col
  mirror_apply op_add src col =
      for_each (λ s set. if contains set s then set else add set s) src col
  mirror_apply op_replace src col =
      for_each (λ s set. if contains set s then set else add set s) src empty

  -- The same, at a channel that may have no entry for the listener.
  abbrev pub mirror : VisOp → Option VisEntry → Keys → Keys
  mirror op none col = col
  mirror op (some e) col = mirror_apply op e.excl col

  -- The set of the listeners that a batch names.
  abbrev pub named : VisBatch → Keys
  named vb = name_all vb.mute_entries (name_all vb.entries empty)
    where
      name_all : List VisEntry → Keys → Keys
      name_all [] set = set
      name_all (e ∷ es) set = name_all es (add set e.listener)

module _ (sets : StrSet) (maps : StrMap (VisRecord sets)) (settings : Settings) where
  -- `janus_slvoice_vis_adopt_locked`
  unfoldable pub vis_adopt : ℕ → ℤ → Room sets maps → Room sets maps × EpochVerdict
  unfolding epoch_decide
  vis_adopt incoming now room =
      let v =
        epoch_decide room.vis_auth_epoch room.vis_auth_last_us now (stale_us settings) incoming in
      if is_stale v
      then (record room { vis_stale_epoch_rejects = next room.vis_stale_epoch_rejects }, v)
      else if is_equal v
      then (record room { vis_auth_last_us = now }, v)
      else (
        record room {
          vis_records = maps.empty;
          vis_auth_epoch = incoming;
          vis_policy_gen = 0;
          vis_auth_last_us = now;
        },
        v,
      )

  -- A room and an outcome under change.
  pub record Checking : Type 0 where
    pub room : Room sets maps
    pub out : Outcome

  abbrev pub put_record : Checking → CString → VisRecord sets → Checking
  put_record c listener r = record c {
    room = record c.room { vis_records = maps.insert c.room.vis_records listener r };
  }

  abbrev pub fresh_record : VisRecord sets
  fresh_record = record {
    epoch = 0;
    listener_gen = 0;
    confirmed_us = pos 0;
    stale = false;
    excl = sets.empty;
    mute = sets.empty;
  }

  -- The columns and the generation that a batch sets in a record.
  abbrev pub advance : VisBatch → CString → ℕ → ℤ → VisRecord sets → VisRecord sets
  advance vb listener gen now r = record r {
    listener_gen = gen;
    confirmed_us = now;
    excl = mirror sets vb.op (find_entry vb.entries listener) r.excl;
    mute = mirror sets vb.op (find_entry vb.mute_entries listener) r.mute;
  }

  -- A replace arms the record, whatever it was before.
  abbrev pub arm : VisBatch → CString → ℕ → ℤ → ℕ → VisRecord sets → VisRecord sets
  arm vb listener gen now auth_epoch r = record (advance vb listener gen now r) {
    epoch = auth_epoch;
    stale = false;
  }

  -- A replace, for one listener: at the cap no new record is made.
  unfoldable pub arm_listener : VisBatch → ℕ → ℤ → CString → Checking → Checking
  unfolding mirror_apply find_entry
  arm_listener vb gen now listener c = elim (maps.lookup c.room.vis_records listener) [
    | some r ↦ put_record c listener (arm vb listener gen now c.room.vis_auth_epoch r)
    | none ↦
        if leb max_records (maps.size c.room.vis_records)
        then record {
          room = record c.room { vis_records_full = next c.room.vis_records_full };
          out = record c.out { unarmed = c.out.unarmed ++ listener ∷ [] };
        }
        else put_record c listener (arm vb listener gen now c.room.vis_auth_epoch fresh_record)
  ]

  -- May an add or a remove advance this record?
  abbrev pub advances : VisBatch → CString → ℕ → VisRecord sets → Bool
  advances vb listener auth_epoch r =
      r.epoch == auth_epoch && base_is (find_base vb.base listener) r.listener_gen

  abbrev pub refuse_listener : Bool → CString → Outcome → Outcome
  refuse_listener enforced listener out = record out {
    stale = out.stale ++ listener ∷ [];
    skip = if enforced then listener ∷ out.skip else out.skip;
  }

  -- An add or a remove, for one listener.
  unfoldable pub advance_listener : Bool → VisBatch → ℕ → ℤ → CString → Checking → Checking
  unfolding mirror_apply find_entry find_base
  advance_listener enforced vb gen now listener c = elim (maps.lookup c.room.vis_records listener) [
    | none ↦ record c { out = refuse_listener enforced listener c.out }
    | some r ↦
        if advances vb listener c.room.vis_auth_epoch r
        then put_record c listener (advance vb listener gen now r)
        else record (put_record c listener (record r { stale = true })) {
          out = refuse_listener enforced listener c.out;
        }
  ]

  unfoldable pub check_listener : Bool → VisBatch → ℕ → ℤ → CString → Checking → Checking
  unfolding arm_listener advance_listener
  check_listener enforced vb gen now listener c =
      if is_replace vb.op
      then arm_listener vb gen now listener c
      else advance_listener enforced vb gen now listener c

  -- Once the epoch is adopted: the generation, and then every listener named.
  unfoldable pub check_generation : Bool → VisBatch → ℤ → EpochVerdict → Room sets maps → Checking
  unfolding check_listener
  check_generation enforced vb now v room =
      let gen = vb.policy_generation % 2 ^ 32 in
      if leb gen room.vis_policy_gen
      then record {
        room = record room {
          vis_stale_generation_rejects = next room.vis_stale_generation_rejects;
        };
        out = record no_outcome { verdict = v; stale_generation = true; refused = enforced };
      }
      else for_each (check_listener enforced vb gen now) (sets.keys (named sets vb)) (record {
        room = record room { vis_policy_gen = gen };
        out = record no_outcome { verdict = v };
      })

  -- `janus_slvoice_vis_batch_authority_locked`
  unfoldable pub batch_authority : VisBatch → ℤ → Room sets maps → Checking
  unfolding vis_enforced vis_adopt check_generation
  batch_authority vb now room =
      let enforced = vis_enforced sets maps settings room in
      let (adopted, v) = vis_adopt vb.room_epoch now room in
      if not vb.has_epoch
      then record { room = room; out = no_outcome }
      else if is_stale v
      then record { room = adopted; out = record no_outcome { verdict = v; refused = enforced } }
      else check_generation enforced vb now v adopted
