-- ===== src/Listener/Seen.antt =====
-- What a listener sees of every source's dot.
use legion_voice_mixer.Prelude.{
  ℕ, ◌≡◌, refl, ap, ◌∙◌, subst, Bool, true, false, not, ◌&&◌, ◌||◌, List, [], ◌∷◌, Option, none,
  some, CString, str_eq, str_eq_comm, eq_of_str_eq, arith, if◌then◌else◌, Bool-cases, Option-cases,
  inl, inr,
}
use legion_voice_mixer.Swap.{any}
use legion_voice_mixer.Glib.{StrSet, StrMap}
use legion_voice_mixer.Columns.{Column, col_has}
use legion_voice_mixer.Doubles.{Doubles}
use legion_voice_mixer.Listener.{CullHyst, PeerCtl}
use legion_voice_mixer.Listener.Dots.{
  cull_latched, is_empty, latched_names, is_own, Viewer, muted_names, needs_filter, delete,
  dot_darken, darken_all, delete_all, delete_hidden, filtered, dot_batch,
}

module _ {Dot : Type 0} (dots : StrMap Dot) where
  -- A dot that is there, darkened.
  abbrev pub dark_dot : Option Dot → Option Dot → Option Dot
  dark_dot dark none = none
  dark_dot dark (some v) = dark

  lookup-delete :
      (k u : CString) (m : dots.Map)
      → dots.lookup (delete dots k m) u ≡ (if str_eq k u then none else dots.lookup m u)
  lookup-delete k u m =
      dots.lookup_keep m (λ j. not (str_eq j k)) u ∙ ground (arith, str_eq_comm u k)

  darkened :
      (dark : Option Dot) (k u : CString) (m : dots.Map)
      → dots.lookup
          (elim dark as (λ d. dots.Map) [ none ↦ delete dots k m | some d ↦ dots.insert m k d ])
          u
        ≡ (if str_eq k u then dark else dots.lookup m u)
  darkened none k u m = lookup-delete k u m
  darkened (some d) k u m = dots.lookup_insert m k u d

  lookup-dot_darken :
      (dark : Option Dot) (k u : CString) (m : dots.Map)
      → dots.lookup (dot_darken dots dark k m) u
        ≡ (if str_eq k u then dark_dot dark (dots.lookup m u) else dots.lookup m u)
  unfolding dot_darken
  lookup-dot_darken dark k u m =
      let moved : (o : Option Dot) → dots.lookup m k ≡ o → str_eq k u ≡ true → dots.lookup m u ≡ o =
        λ o e same. subst (λ x. dots.lookup m x ≡ o) (eq_of_str_eq k u same) e in
      elim (Option-cases (dots.lookup m k)) [
        | inl n ↦
            rw (n, dot_darken)
              (elim (Bool-cases (str_eq k u)) [
                | inl same ↦ rw (same, moved none n same) refl
                | inr other ↦ rw other refl
              ])
        | inr (v, e) ↦
            rw (e, dot_darken)
              (darkened dark k u m ∙ (elim (Bool-cases (str_eq k u)) [
                | inl same ↦ rw (same, moved (some v) e same) refl
                | inr other ↦ rw other refl
              ]))
      ]

  dark_dot-twice : (dark o : Option Dot) → dark_dot dark (dark_dot dark o) ≡ dark_dot dark o
  dark_dot-twice none none = refl
  dark_dot-twice (some d) none = refl
  dark_dot-twice none (some v) = refl
  dark_dot-twice (some d) (some v) = refl

  -- Three passes darken what any of them names.
  dark_thrice :
      (a b c : Bool) (dark o : Option Dot)
      → (if c
          then dark_dot dark (
              if b
              then dark_dot dark (if a then dark_dot dark o else o)
              else (if a then dark_dot dark o else o))
          else (if b
              then dark_dot dark (if a then dark_dot dark o else o)
              else (if a then dark_dot dark o else o)))
        ≡ (if a || b || c then dark_dot dark o else o)
  dark_thrice a b c dark o = ground (arith, dark_dot-twice dark o)

  lookup-darken_all :
      (dark : Option Dot) (ks : Column) (u : CString) (m : dots.Map)
      → dots.lookup (darken_all dots dark ks m) u
        ≡ (if col_has ks u then dark_dot dark (dots.lookup m u) else dots.lookup m u)
  unfolding darken_all col_has
  lookup-darken_all dark [] u m = refl
  lookup-darken_all dark (k ∷ ks) u m = ground (
    arith,
    lookup-darken_all dark ks u (dot_darken dots dark k m),
    lookup-dot_darken dark k u m,
    dark_dot-twice dark (dots.lookup m u),
  )

  lookup-delete_all :
      (ks : Column) (u : CString) (m : dots.Map)
      → dots.lookup (delete_all dots ks m) u ≡ (if col_has ks u then none else dots.lookup m u)
  unfolding delete_all col_has
  lookup-delete_all [] u m = refl
  lookup-delete_all (k ∷ ks) u m =
      ground (arith, lookup-delete_all ks u (delete dots k m), lookup-delete k u m)

  lookup-delete_hidden :
      (display : Option CString) (ks : Column) (u : CString) (m : dots.Map)
      → dots.lookup (delete_hidden dots display ks m) u
        ≡ (if col_has ks u && not (is_own display u) then none else dots.lookup m u)
  unfolding delete_hidden col_has
  lookup-delete_hidden display [] u m = refl
  lookup-delete_hidden display (k ∷ ks) u m =
      let same_own : str_eq k u ≡ true → is_own display k ≡ is_own display u =
        λ e. ap (is_own display) (eq_of_str_eq k u e) in
      elim (Bool-cases (is_own display k)) [
        | inl own ↦ rw own (ground (arith, own, same_own, lookup-delete_hidden display ks u m))
        | inr hid ↦ rw hid (
            ground (
              arith,
              hid,
              same_own,
              lookup-delete_hidden display ks u (delete dots k m),
              lookup-delete k u m,
            ))
      ]

left_out_own {ℓ} :
    {A : Type ℓ} (own excl : Bool) (o : Option A)
    → (if own then if excl then none else o else none)
      ≡ (if excl || (not own && true) then none else o)
left_out_own own excl o = ground arith

left_out_choice {ℓ} :
    {A : Type ℓ} (hid own excl : Bool) (o : Option A)
    → (if hid && not own then none else if excl then none else o)
      ≡ (if excl || (not own && hid) then none else o)
left_out_choice hid own excl o = ground arith

module _ (doubles : Doubles) (sets : StrSet) {Dot : Type 0} (dots : StrMap Dot) where
  -- The sources that the listener hears nothing of: moderated, muted by itself, or culled at this tick.
  abbrev pub is_dark : ℕ → Viewer doubles sets → CString → Bool
  is_dark tick l u =
      sets.contains l.mod_muted u
      || col_has (muted_names doubles sets l.peer_ctl) u
      || col_has (latched_names tick l.cull_hyst) u

  -- The sources that are left out: excluded, or not both in row 4 and not the listener itself.
  abbrev pub is_left_out : Viewer doubles sets → Bool → Column → CString → Bool
  is_left_out l listener_ok hidden u =
      sets.contains l.excluded u
      || (not (is_own l.display u) && (not listener_ok || col_has hidden u))

  module _ (tick : ℕ) (l : Viewer doubles sets) (dark : Option Dot) (batch : dots.Map)
      (u : CString) where
    abbrev muted : dots.Map
    muted = darken_all dots dark (sets.keys l.mod_muted) batch

    abbrev personal : dots.Map
    personal = darken_all dots dark (muted_names doubles sets l.peer_ctl) muted

    abbrev darkened_map : dots.Map
    darkened_map = darken_all dots dark (latched_names tick l.cull_hyst) personal

    abbrev shown : Option Dot
    shown =
        if is_dark tick l u then dark_dot dots dark (dots.lookup batch u) else dots.lookup batch u

    lookup-darkened : dots.lookup darkened_map u ≡ shown
    lookup-darkened =
        rw
          (
            lookup-darken_all dots dark (latched_names tick l.cull_hyst) u personal,
            lookup-darken_all dots dark (muted_names doubles sets l.peer_ctl) u muted,
            lookup-darken_all dots dark (sets.keys l.mod_muted) u batch,
            sets.has_keys l.mod_muted u,
          )
          (dark_thrice dots (sets.contains l.mod_muted u)
            (col_has (muted_names doubles sets l.peer_ctl) u)
            (col_has (latched_names tick l.cull_hyst) u) dark (dots.lookup batch u))

    lookup-kept :
        dots.lookup (delete_all dots (sets.keys l.excluded) darkened_map) u
        ≡ (if sets.contains l.excluded u then none else shown)
    lookup-kept =
        rw
          (lookup-delete_all dots (sets.keys l.excluded) u darkened_map, sets.has_keys l.excluded u)
          (ap (λ o. if sets.contains l.excluded u then none else o) lookup-darkened)

    lookup-filtered :
        (listener_ok : Bool) (hidden : Column)
        → dots.lookup (filtered doubles sets dots tick l dark listener_ok hidden batch) u
          ≡ (if is_left_out l listener_ok hidden u then none else shown)
    unfolding filtered
    lookup-filtered true hidden =
        rw
          (
            lookup-delete_hidden dots l.display hidden u
                (delete_all dots (sets.keys l.excluded) darkened_map),
            lookup-kept,
          )
          (left_out_choice (col_has hidden u) (is_own l.display u) (sets.contains l.excluded u)
            shown)
    lookup-filtered false hidden =
        rw
          (
            dots.lookup_keep (delete_all dots (sets.keys l.excluded) darkened_map)
                (is_own l.display) u,
            lookup-kept,
          )
          (left_out_own (is_own l.display u) (sets.contains l.excluded u) shown)

    col_has-empty : (ks : Column) → is_empty ks ≡ true → col_has ks u ≡ false
    unfolding col_has
    col_has-empty [] h = refl
    col_has-empty (k ∷ ks) h = cc

    muted_names_none :
        (ps : List (PeerCtl doubles))
        → any (λ p. p.muted) ps ≡ false
        → col_has (muted_names doubles sets ps) u ≡ false
    unfolding col_has
    muted_names_none [] h = refl
    muted_names_none (p ∷ ps) h = ground (arith, muted_names_none ps)

    latched_names_none :
        (ss : List CullHyst)
        → any (cull_latched tick) ss ≡ false
        → col_has (latched_names tick ss) u ≡ false
    unfolding col_has
    latched_names_none [] h = refl
    latched_names_none (s ∷ ss) h = ground (arith, latched_names_none ss)

    -- A listener that shares the batch has nothing to filter.
    shared_lem :
        (listener_ok : Bool) (hidden : Column)
        → needs_filter doubles sets tick l listener_ok hidden ≡ false
        → (is_left_out l listener_ok hidden u ≡ false) × (is_dark tick l u ≡ false)
    unfolding needs_filter
    shared_lem listener_ok hidden h = ground (
      arith,
      h,
      col_has-empty hidden,
      col_has-empty (sets.keys l.excluded),
      col_has-empty (sets.keys l.mod_muted),
      sets.has_keys l.excluded u,
      sets.has_keys l.mod_muted u,
      muted_names_none l.peer_ctl,
      latched_names_none l.cull_hyst,
    )

    abbrev pub seen_dots : Option dots.Map → dots.Map
    seen_dots none = batch
    seen_dots (some m) = m

    -- When the copy can be allocated, a listener's dots show every source as its mix has it: a source that
    -- it excludes, or one that is not visible with it in a fail-closed room, has no dot; a source that is
    -- moderated, muted by the listener or culled at this tick has a dark one, if the batch has one; every
    -- other source has the dot of the batch. This holds of a listener that is sent the shared batch, too.
    pub dot_batch-seen_dots :
        (listener_ok : Bool) (hidden : Column)
        → dots.lookup
            (seen_dots (dot_batch doubles sets dots true tick l dark listener_ok hidden batch))
            u
          ≡ (if is_left_out l listener_ok hidden u
              then none
              else if is_dark tick l u
              then dark_dot dots dark (dots.lookup batch u)
              else dots.lookup batch u)
    unfolding dot_batch
    dot_batch-seen_dots listener_ok hidden =
        elim (Bool-cases (needs_filter doubles sets tick l listener_ok hidden)) [
          | inl needed ↦ rw needed (lookup-filtered listener_ok hidden)
          | inr shared ↦
              let (kept, light) = shared_lem listener_ok hidden shared in
              rw (shared, kept, light) refl
        ]
