-- ===== src/Visibility/Late.antt =====
-- A listener that joins after its columns arrived, against one that was there all along.
use legion_voice_mixer.Prelude.{
  ◌+◌, ◌≤◌, ◌≡◌, refl, ◌∙◌, ap, Bool, true, false, ◌&&◌, ◌||◌, List, [], ◌∷◌, none, some, CString,
  str_eq, length, arith, if◌then◌else◌, inl, inr, Option-cases, str_eq_refl,
}
use legion_voice_mixer.Glib.{StrSet, StrMap}
use legion_voice_mixer.Columns.{Column, col_has, channel_update}
use legion_voice_mixer.Columns.Laws.{merged, col_has-channel_update}
use legion_voice_mixer.Deferred.{Store, max_deferred, get}
use legion_voice_mixer.Deferred.Put.{IsValid}
use legion_voice_mixer.Deferred.Contract.{column, same, replay_done_lem}
use legion_voice_mixer.Deferred.History.{
  Deposit, deposits, own_column, ShortNames, deposits-own_column, deposits-IsValid,
}
use legion_voice_mixer.Visibility.{Settings, VisRecord, Member, Room}
use legion_voice_mixer.Visibility.Channels.{set_mod_muted}
use legion_voice_mixer.Visibility.Merge.{contains-cong}
use legion_voice_mixer.Visibility.Join.{add_rows, mute_rows, replay_deferred}

module _ (sets : StrSet) where
  open sets use {Keys, contains, add, contains_add}

  contains-add_rows :
      (src : Column) (held : Keys) (t : CString)
      → contains (add_rows sets src held) t ≡ (contains held t || col_has src t)
  unfolding col_has
  contains-add_rows [] held t = ground arith
  contains-add_rows (s ∷ src) held t = ground (
    arith,
    contains-add_rows src held t,
    contains-add_rows src (add held s) t,
    contains_add held s t,
    contains-cong sets held s t,
  )

  contains-mute_rows :
      (src : Column) (held : Keys) (t : CString)
      → contains (mute_rows sets src held) t ≡ (contains held t || col_has src t)
  unfolding col_has set_mod_muted
  contains-mute_rows [] held t = ground arith
  contains-mute_rows (s ∷ src) held t = ground (
    arith,
    contains-mute_rows src held t,
    contains-mute_rows src (add held s) t,
    contains_add held s t,
    contains-cong sets held s t,
  )

-- The row of one source in a column of one listener, through a history of deposits that all find memory:
-- each of the listener's own deposits to the channel applies its operation.
abbrev pub own_held : CString → Bool → CString → List Deposit → Bool → Bool
own_held k ch t [] held = held
own_held k ch t (d ∷ ds) held =
    own_held k ch t ds (
      if str_eq d.listener k && same ch d.is_mute then merged d.op held (col_has d.src t) else held)

abbrev pub Allocated : List Deposit → Type 0
Allocated [] = Unit {0}
Allocated (d ∷ ds) = (d.alloc ≡ true) × Allocated ds

col_has-own_column :
    (k : CString) (ch : Bool) (t : CString) (ds : List Deposit) (col : Column)
    → ShortNames ds
    → Allocated ds
    → col_has (own_column k ch col ds) t ≡ own_held k ch t ds (col_has col t)
col_has-own_column k ch t [] col h a = refl
col_has-own_column k ch t (d ∷ ds) col h a = ground (
  arith,
  col_has-own_column k ch t ds
      (if str_eq d.listener k && same ch d.is_mute
        then channel_update d.alloc d.op d.src col
        else col)
      h.2 a.1,
  a.0,
  col_has-channel_update d.op d.src col t h.1,
)

module _ (sets : StrSet) (maps : StrMap (VisRecord sets)) (settings : Settings) where
  open sets use {contains}

  contains-replay :
      (room : Room sets maps) (l : Member sets) (k t : CString)
      → l.display ≡ some k
      → IsValid room.vis_deferred.entries
      → (contains (replay_deferred sets maps settings room l).1.excluded t
          ≡ (contains l.excluded t || col_has (column k false room.vis_deferred) t))
        × (contains (replay_deferred sets maps settings room l).1.mod_muted t
            ≡ (contains l.mod_muted t || col_has (column k true room.vis_deferred) t))
        × (get (replay_deferred sets maps settings room l).0.vis_deferred k ≡ none)
  unfolding replay_deferred col_has
  contains-replay room l k t named v = elim (Option-cases (get room.vis_deferred k)) [
    | inl n ↦ ground (arith, named, n)
    | inr (d, e) ↦ ground (
      arith,
      named,
      e,
      contains-add_rows sets d.excl l.excluded t,
      contains-mute_rows sets d.mute l.mod_muted t,
      (replay_done_lem room.vis_deferred k k v).0,
      str_eq_refl k,
    )
  ]

  -- A listener that joins after its columns were deferred ends up as if it had been there: a source that
  -- it did not exclude before is excluded exactly when the listener's own deposits, merged in their order
  -- into what the store held of it, say so, and likewise for moderation mutes. Its record is gone.
  -- For names that fit, deposits that find memory, and a sound store with room for one more record for each.
  pub replay_deferred-as_if_present :
      (room : Room sets maps) (l : Member sets) (k t : CString) (st : Store) (ds : List Deposit)
      → l.display ≡ some k
      → room.vis_deferred ≡ deposits st ds
      → ShortNames ds
      → Allocated ds
      → IsValid st.entries
      → length st.entries + length ds ≤ max_deferred
      → (contains (replay_deferred sets maps settings room l).1.excluded t
          ≡ (contains l.excluded t || own_held k false t ds (col_has (column k false st) t)))
        × (contains (replay_deferred sets maps settings room l).1.mod_muted t
            ≡ (contains l.mod_muted t || own_held k true t ds (col_has (column k true st) t)))
        × (get (replay_deferred sets maps settings room l).0.vis_deferred k ≡ none)
  replay_deferred-as_if_present room l k t st ds named held h a v fit =
      let valid : IsValid room.vis_deferred.entries = rw held (deposits-IsValid st ds h v) in
      let (x, m, g) = contains-replay room l k t named valid in
      (
        x
            ∙ ap (λ c. contains l.excluded t || col_has c t)
                (ap (column k false) held ∙ deposits-own_column st ds k false h v fit)
            ∙ ap (λ b. contains l.excluded t || b)
                (col_has-own_column k false t ds (column k false st) h a),
        m
            ∙ ap (λ c. contains l.mod_muted t || col_has c t)
                (ap (column k true) held ∙ deposits-own_column st ds k true h v fit)
            ∙ ap (λ b. contains l.mod_muted t || b)
                (col_has-own_column k true t ds (column k true st) h a),
        g,
      )
