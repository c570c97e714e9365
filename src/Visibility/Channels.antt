-- ===== src/Visibility/Channels.antt =====
-- One entry of a batch, merged into the sets of one session: the bodies of the participants' loops in
-- `janus_slvoice_apply_visbatch_locked` and `janus_slvoice_apply_mutebatch_locked`, and
-- `janus_slvoice_set_mod_muted_locked`, of src/janus_slvoice.c.
use legion_voice_mixer.Prelude.{
  ℕ, Bool, true, false, not, ◌&&◌, List, [], ◌∷◌, ◌++◌, CString, length, ltb, if◌then◌else◌,
}
use legion_voice_mixer.Glib.{StrSet}
use legion_voice_mixer.Columns.{VisOp, op_add, op_remove, op_replace, Column, col_has, uuid_copy}

-- `SLV_VIS_MAX_EXCL * 2`
abbrev pub max_transitions : ℕ
max_transitions = 256

-- A row of `trans_uuid`, and of `trans_join` or `trans_mute`.
pub record Transition : Type 0 where
  pub who : CString
  pub on : Bool

-- A transition is dropped when the array is full.
unfoldable pub note : List Transition → CString → Bool → List Transition
unfolding uuid_copy
note ts who on =
    if ltb (length ts) max_transitions
    then ts ++ record { who = uuid_copy who; on = on } ∷ []
    else ts

abbrev pub for_each {ℓ} : {A : Type ℓ} → (CString → A → A) → Column → A → A
for_each f [] a = a
for_each f (s ∷ src) a = for_each f src (f s a)

module _ (sets : StrSet) where
  open sets use {Keys, empty, contains, add, remove, keys}

  -- A set under change, and the transitions to emit.
  pub record Work : Type 0 where
    pub held : Keys
    pub trans : List Transition

  -- A round of the ADD loop; `present` is whether a display is in the room.
  unfoldable pub exclude_one : (CString → Bool) → CString → Work → Work
  unfolding note
  exclude_one present s w = if contains w.held s then w else record {
    held = add w.held s;
    trans = if present s then note w.trans s false else w.trans;
  }

  -- A round of the REMOVE loop.
  unfoldable pub include_one : (CString → Bool) → CString → Work → Work
  unfolding note
  include_one present s w =
      if contains w.held s
      then record {
        held = remove w.held s;
        trans = if present s then note w.trans s true else w.trans;
      }
      else w

  -- A round of a difference: a present row that `other` does not hold is noted.
  unfoldable pub note_missing :
      (CString → Bool) → Keys → Bool → CString → List Transition → List Transition
  unfolding note
  note_missing present other on s ts =
      if not (contains other s) && present s then note ts s on else ts

  -- The REPLACE branch: a new set, the removed rows in the order of the old one, then the added rows.
  unfoldable pub exclude_exactly : (CString → Bool) → Column → Keys → Work
  unfolding note_missing
  exclude_exactly present src old =
      let newset = for_each (λ s set. add set s) src empty in
      let gone = for_each (note_missing present newset true) (keys old) [] in
      record { held = newset; trans = for_each (note_missing present old false) src gone }

  -- The exclusion column of one session.
  unfoldable pub update_excluded : (CString → Bool) → VisOp → Column → Keys → Work
  unfolding exclude_one include_one exclude_exactly
  update_excluded present op_add src held =
      for_each (exclude_one present) src (record { held = held; trans = [] })
  update_excluded present op_remove src held =
      for_each (include_one present) src (record { held = held; trans = [] })
  update_excluded present op_replace src held = exclude_exactly present src held

  -- `janus_slvoice_set_mod_muted_locked`: the set, and whether it changed.
  unfoldable pub set_mod_muted : Keys → CString → Bool → Keys × Bool
  set_mod_muted muted uuid false = (remove muted uuid, contains muted uuid)
  set_mod_muted muted uuid true =
      if contains muted uuid then (muted, false) else (add muted uuid, true)

  -- A round of the loops that call it.
  unfoldable pub mute_one : Bool → CString → Work → Work
  unfolding set_mod_muted note
  mute_one want s w =
      let (held, changed) = set_mod_muted w.held s want in
      record { held = held; trans = if changed then note w.trans s want else w.trans }

  -- A round of the REPLACE branch over the old set: a row that is not in the new one is cleared.
  unfoldable pub clear_one : Column → CString → Work → Work
  unfolding note
  clear_one src s w =
      if col_has src s then w else record { held = remove w.held s; trans = note w.trans s false }

  -- The moderation-mute column of one session.
  unfoldable pub update_muted : VisOp → Column → Keys → Work
  unfolding mute_one clear_one
  update_muted op_add src held = for_each (mute_one true) src (record { held = held; trans = [] })
  update_muted op_remove src held =
      for_each (mute_one false) src (record { held = held; trans = [] })
  update_muted op_replace src held =
      for_each (mute_one true) src
        (for_each (clear_one src) (keys held) (record { held = held; trans = [] }))
