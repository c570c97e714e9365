-- ===== src/Visibility/Merge.antt =====
-- What the merge of one entry leaves in a session's sets, and the transitions that it notes.
use legion_voice_mixer.Prelude.{
  ◌≡◌, ap, Bool, true, false, not, ◌&&◌, ◌||◌, [], ◌∷◌, CString, str_eq, eq_of_str_eq, arith,
  if◌then◌else◌,
}
use legion_voice_mixer.Glib.{StrSet}
use legion_voice_mixer.Columns.{VisOp, op_add, op_remove, op_replace, Column, col_has}
use legion_voice_mixer.Columns.Laws.{merged, col_has-cong}
use legion_voice_mixer.Visibility.Channels.{
  for_each, Work, exclude_one, include_one, exclude_exactly, update_excluded, set_mod_muted,
  mute_one, clear_one, update_muted,
}

module _ (sets : StrSet) where
  open sets use {
    Keys, empty, contains, add, remove, keys, contains_empty, contains_add, contains_remove,
    has_keys,
  }

  pub contains-cong :
      (held : Keys) (r s : CString) → str_eq r s ≡ true → contains held r ≡ contains held s
  contains-cong held r s h = ap (contains held) (eq_of_str_eq r s h)

  contains-exclude :
      (present : CString → Bool) (src : Column) (w : Work sets) (t : CString)
      → contains (for_each (exclude_one sets present) src w).held t
        ≡ (contains w.held t || col_has src t)
  unfolding exclude_one col_has
  contains-exclude present [] w t = ground arith
  contains-exclude present (s ∷ src) w t = ground (
    arith,
    contains-exclude present src (exclude_one sets present s w) t,
    contains_add w.held s t,
    contains-cong w.held s t,
  )

  contains-include :
      (present : CString → Bool) (src : Column) (w : Work sets) (t : CString)
      → contains (for_each (include_one sets present) src w).held t
        ≡ (contains w.held t && not (col_has src t))
  unfolding include_one col_has
  contains-include present [] w t = ground arith
  contains-include present (s ∷ src) w t = ground (
    arith,
    contains-include present src (include_one sets present s w) t,
    contains_remove w.held s t,
    contains-cong w.held s t,
  )

  pub contains-add_all :
      (src : Column) (held : Keys) (t : CString)
      → contains (for_each (λ s set. add set s) src held) t ≡ (contains held t || col_has src t)
  unfolding col_has
  contains-add_all [] held t = ground arith
  contains-add_all (s ∷ src) held t =
      ground (arith, contains-add_all src (add held s) t, contains_add held s t)

  -- After an entry is merged a session excludes what the operation says of its earlier set and the entry:
  -- their union, their difference, or the entry alone.
  pub contains-update_excluded :
      (present : CString → Bool) (op : VisOp) (src : Column) (held : Keys) (t : CString)
      → contains (update_excluded sets present op src held).held t
        ≡ merged op (contains held t) (col_has src t)
  unfolding update_excluded exclude_exactly
  contains-update_excluded present op_add src held t =
      contains-exclude present src (record { held = held; trans = [] }) t
  contains-update_excluded present op_remove src held t =
      contains-include present src (record { held = held; trans = [] }) t
  contains-update_excluded present op_replace src held t =
      ground (arith, contains-add_all src empty t, contains_empty t)

  contains-mute :
      (want : Bool) (src : Column) (w : Work sets) (t : CString)
      → contains (for_each (mute_one sets want) src w).held t ≡ (
          if want
          then contains w.held t || col_has src t
          else contains w.held t && not (col_has src t))
  unfolding mute_one set_mod_muted col_has
  contains-mute want [] w t = ground arith
  contains-mute true (s ∷ src) w t = ground (
    arith,
    contains-mute true src (mute_one sets true s w) t,
    contains_add w.held s t,
    contains-cong w.held s t,
  )
  contains-mute false (s ∷ src) w t = ground (
    arith,
    contains-mute false src (mute_one sets false s w) t,
    contains_remove w.held s t,
    contains-cong w.held s t,
  )

  contains-clear :
      (src ks : Column) (w : Work sets) (t : CString)
      → contains (for_each (clear_one sets src) ks w).held t
        ≡ (contains w.held t && (col_has src t || not (col_has ks t)))
  unfolding clear_one col_has
  contains-clear src [] w t = ground arith
  contains-clear src (s ∷ ks) w t = ground (
    arith,
    contains-clear src ks (clear_one sets src s w) t,
    contains_remove w.held s t,
    col_has-cong src s t,
  )

  -- After an entry of the mute channel is merged a session's moderation mutes are what the operation says
  -- of the earlier ones and the entry, and a mute removed from the set is not put back by the loop that adds.
  pub contains-update_muted :
      (op : VisOp) (src : Column) (held : Keys) (t : CString)
      → contains (update_muted sets op src held).held t
        ≡ merged op (contains held t) (col_has src t)
  unfolding update_muted
  contains-update_muted op_add src held t =
      contains-mute true src (record { held = held; trans = [] }) t
  contains-update_muted op_remove src held t =
      contains-mute false src (record { held = held; trans = [] }) t
  contains-update_muted op_replace src held t = ground (
    arith,
    contains-mute true src
        (for_each (clear_one sets src) (keys held) (record { held = held; trans = [] })) t,
    contains-clear src (keys held) (record { held = held; trans = [] }) t,
    has_keys held t,
  )
