-- ===== src/Listener/Dots.antt =====
-- A listener's dots, `janus_slvoice_dot_batch_for_listener_locked` of src/janus_slvoice.c. A JSON object of
-- dots by display is a table from strings to values.
use legion_voice_mixer.Prelude.{
  ℕ, Bool, true, false, not, ◌&&◌, ◌||◌, List, [], ◌∷◌, Option, none, some, CString, str_eq, ◌==◌,
  if◌then◌else◌,
}
use legion_voice_mixer.Swap.{any}
use legion_voice_mixer.Glib.{StrSet, StrMap}
use legion_voice_mixer.Columns.{Column}
use legion_voice_mixer.Doubles.{Doubles}
use legion_voice_mixer.Listener.{CullHyst, PeerCtl}

-- `janus_slvoice_cull_latched_locked`: the latch of a source that was seen at this tick.
unfoldable pub cull_latched : ℕ → CullHyst → Bool
cull_latched tick_seq slot = slot.culled && slot.seen_tick == tick_seq

abbrev pub is_empty : Column → Bool
is_empty [] = true
is_empty (k ∷ ks) = false

abbrev pub latched_names : ℕ → List CullHyst → Column
latched_names tick [] = []
latched_names tick (s ∷ ss) =
    let rest = latched_names tick ss in if cull_latched tick s then s.uuid ∷ rest else rest

-- Is `k` the session's own display?
abbrev pub is_own : Option CString → CString → Bool
is_own none k = false
is_own (some d) k = str_eq k d

module _ (doubles : Doubles) (sets : StrSet) where
  -- The fields of `janus_slvoice_session` that its dots depend on.
  pub record Viewer : Type 0 where
    pub display : Option CString
    pub excluded : sets.Keys
    pub mod_muted : sets.Keys
    pub peer_ctl : List (PeerCtl doubles)
    pub cull_hyst : List CullHyst

  abbrev pub muted_names : List (PeerCtl doubles) → Column
  muted_names [] = []
  muted_names (p ∷ ps) = let rest = muted_names ps in if p.muted then p.uuid ∷ rest else rest

  -- Does anything differ from the shared batch? `hidden` is empty for a NULL set.
  unfoldable pub needs_filter : ℕ → Viewer → Bool → Column → Bool
  unfolding cull_latched
  needs_filter tick l listener_ok hidden =
      not listener_ok
      || not (is_empty hidden)
      || not (is_empty (sets.keys l.excluded))
      || not (is_empty (sets.keys l.mod_muted))
      || any (λ p. p.muted) l.peer_ctl
      || any (cull_latched tick) l.cull_hyst

module _ {Dot : Type 0} (dots : StrMap Dot) where
  -- `json_object_del`
  abbrev pub delete : CString → dots.Map → dots.Map
  delete k m = dots.keep m (λ j. not (str_eq j k))

  -- `janus_slvoice_dot_darken`, where `dark` is `none` when it could not be built.
  unfoldable pub dot_darken : Option Dot → CString → dots.Map → dots.Map
  dot_darken dark k m = elim (dots.lookup m k) [
    | none ↦ m
    | some v ↦ elim dark [ none ↦ delete k m | some d ↦ dots.insert m k d ]
  ]

  unfoldable pub darken_all : Option Dot → Column → dots.Map → dots.Map
  unfolding dot_darken
  darken_all dark [] m = m
  darken_all dark (k ∷ ks) m = darken_all dark ks (dot_darken dark k m)

  unfoldable pub delete_all : Column → dots.Map → dots.Map
  delete_all [] m = m
  delete_all (k ∷ ks) m = delete_all ks (delete k m)

  -- The hidden displays but the listener's own.
  unfoldable pub delete_hidden : Option CString → Column → dots.Map → dots.Map
  delete_hidden display [] m = m
  delete_hidden display (k ∷ ks) m =
      delete_hidden display ks (if is_own display k then m else delete k m)

module _ (doubles : Doubles) (sets : StrSet) {Dot : Type 0} (dots : StrMap Dot) where
  -- The copy of the batch with the listener's own view of it.
  unfoldable pub filtered :
      ℕ → Viewer doubles sets → Option Dot → Bool → Column → dots.Map → dots.Map
  unfolding darken_all delete_all delete_hidden
  filtered tick l dark listener_ok hidden batch =
      let m1 = darken_all dots dark (sets.keys l.mod_muted) batch in
      let m2 = darken_all dots dark (muted_names doubles sets l.peer_ctl) m1 in
      let m3 = darken_all dots dark (latched_names tick l.cull_hyst) m2 in
      let m4 = delete_all dots (sets.keys l.excluded) m3 in
      if listener_ok
      then delete_hidden dots l.display hidden m4
      else dots.keep m4 (is_own l.display)

  -- `janus_slvoice_dot_batch_for_listener_locked`: `none` for NULL, which shares the batch. `alloc` is
  -- whether the copy succeeds.
  unfoldable pub dot_batch :
      Bool → ℕ → Viewer doubles sets → Option Dot → Bool → Column → dots.Map → Option dots.Map
  unfolding needs_filter filtered
  dot_batch alloc tick l dark listener_ok hidden batch =
      if needs_filter doubles sets tick l listener_ok hidden && alloc
      then some (filtered tick l dark listener_ok hidden batch)
      else none
