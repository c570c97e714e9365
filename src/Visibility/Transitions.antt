-- ===== src/Visibility/Transitions.antt =====
-- The transitions that the merge of one exclusion entry notes, against the change of the set.
use legion_voice_mixer.Prelude.{
  ◌+◌, ◌≤◌, ◌<◌, ◌≡◌, ap, Bool, true, false, not, ◌&&◌, ◌||◌, List, [], ◌∷◌, CString, str_eq,
  eq_of_str_eq, length, length-append, uuid_len, arith, if◌then◌else◌,
}
use legion_voice_mixer.Swap.{any, any-snoc}
use legion_voice_mixer.Glib.{StrSet}
use legion_voice_mixer.Columns.{VisOp, op_add, op_remove, op_replace, Column, col_has, uuid_copy}
use legion_voice_mixer.Columns.Laws.{Short, uuid_copy_exact}
use legion_voice_mixer.Deferred.Contract.{same}
use legion_voice_mixer.Visibility.Channels.{
  max_transitions, Transition, note, for_each, Work, exclude_one, include_one, note_missing,
  exclude_exactly, update_excluded,
}
use legion_voice_mixer.Visibility.Merge.{contains-update_excluded, contains-add_all, contains-cong}

abbrev is_note : CString → Bool → Transition → Bool
is_note s on t = str_eq t.who s && same on t.on

-- Is a transition of `s` in this direction noted?
abbrev pub noted : CString → Bool → List Transition → Bool
noted s on ts = any (is_note s on) ts

noted-note :
    (ts : List Transition) (who s : CString) (b on : Bool)
    → length ts < max_transitions
    → length who < uuid_len
    → noted s on (note ts who b) ≡ (noted s on ts || (str_eq who s && same on b))
unfolding note
noted-note ts who s b on room short = ground (
  arith,
  any-snoc (is_note s on) ts (record { who = uuid_copy who; on = b }),
  uuid_copy_exact who short,
)

length-note :
    (ts : List Transition) (who : CString) (b : Bool) → length (note ts who b) ≤ length ts + 1
unfolding note
length-note ts who b =
    ground (arith, length-append ts (record { who = uuid_copy who; on = b } ∷ []))

module _ (sets : StrSet) (present : CString → Bool) where
  open sets use {
    Keys, empty, contains, add, remove, keys, contains_empty, contains_add, contains_remove,
    has_keys,
  }

  present-cong : (r s : CString) → str_eq r s ≡ true → present r ≡ present s
  present-cong r s h = ap present (eq_of_str_eq r s h)

  noted-exclude :
      (src : Column) (w : Work sets) (s : CString) (on : Bool)
      → Short src
      → length w.trans + length src ≤ max_transitions
      → noted s on (for_each (exclude_one sets present) src w).trans
        ≡ (noted s on w.trans || (not on && present s && not (contains w.held s) && col_has src s))
  unfolding exclude_one col_has
  noted-exclude [] w s on h room = ground arith
  noted-exclude (r ∷ src) w s on h room = ground (
    arith,
    noted-exclude src (exclude_one sets present r w) s on h.1,
    noted-note w.trans r s false on,
    length-note w.trans r false,
    contains_add w.held r s,
    contains-cong sets w.held r s,
    present-cong r s,
    h.0,
  )

  noted-include :
      (src : Column) (w : Work sets) (s : CString) (on : Bool)
      → Short src
      → length w.trans + length src ≤ max_transitions
      → noted s on (for_each (include_one sets present) src w).trans
        ≡ (noted s on w.trans || (on && present s && contains w.held s && col_has src s))
  unfolding include_one col_has
  noted-include [] w s on h room = ground arith
  noted-include (r ∷ src) w s on h room = ground (
    arith,
    noted-include src (include_one sets present r w) s on h.1,
    noted-note w.trans r s true on,
    length-note w.trans r true,
    contains_remove w.held r s,
    contains-cong sets w.held r s,
    present-cong r s,
    h.0,
  )

  length-note_missing :
      (other : Keys) (b : Bool) (src : Column) (ts : List Transition)
      → length (for_each (note_missing sets present other b) src ts) ≤ length ts + length src
  unfolding note_missing
  length-note_missing other b [] ts = omega arith
  length-note_missing other b (r ∷ src) ts = ground (
    arith,
    length-note_missing other b src (note_missing sets present other b r ts),
    length-note ts r b,
  )

  noted-note_missing :
      (other : Keys) (b : Bool) (src : Column) (ts : List Transition) (s : CString) (on : Bool)
      → Short src
      → length ts + length src ≤ max_transitions
      → noted s on (for_each (note_missing sets present other b) src ts)
        ≡ (noted s on ts || (same on b && present s && not (contains other s) && col_has src s))
  unfolding note_missing col_has
  noted-note_missing other b [] ts s on h room = ground arith
  noted-note_missing other b (r ∷ src) ts s on h room = ground (
    arith,
    noted-note_missing other b src (note_missing sets present other b r ts) s on h.1,
    noted-note ts r s b on,
    length-note ts r b,
    contains-cong sets other r s,
    present-cong r s,
    h.0,
  )

  -- With names that fit and no more of them than the transition array holds, a merge notes a leave of
  -- exactly the displays present in the room that it newly excludes, and a join of exactly those present
  -- that it no longer excludes.
  pub noted-update_excluded :
      (op : VisOp) (src : Column) (held : Keys) (s : CString) (on : Bool)
      → Short src
      → Short (keys held)
      → length (keys held) + length src ≤ max_transitions
      → noted s on (update_excluded sets present op src held).trans ≡ (
          present s
          && (if on
              then contains held s
                && not (contains (update_excluded sets present op src held).held s)
              else not (contains held s)
                && contains (update_excluded sets present op src held).held s))
  unfolding update_excluded exclude_exactly
  noted-update_excluded op_add src held s on h k room = ground (
    arith,
    contains-update_excluded sets present op_add src held s,
    noted-exclude src (record { held = held; trans = [] }) s on h,
  )
  noted-update_excluded op_remove src held s on h k room = ground (
    arith,
    contains-update_excluded sets present op_remove src held s,
    noted-include src (record { held = held; trans = [] }) s on h,
  )
  noted-update_excluded op_replace src held s on h k room =
      let newset = for_each (λ r set. add set r) src empty in
      ground (
        arith,
        contains-add_all sets src empty s,
        contains_empty s,
        has_keys held s,
        noted-note_missing newset true (keys held) [] s on k,
        length-note_missing newset true (keys held) [],
        noted-note_missing held false src
            (for_each (note_missing sets present newset true) (keys held) []) s on h,
      )
