-- ===== src/Visibility/Reports.antt =====
-- What a pass of `janus_slvoice_vis_transitions_locked` of src/janus_slvoice.c tells, against a description
-- without its places in the table and without its test whether anything changed.
use legion_voice_mixer.Prelude.{
  ℕ, zero, suc, ◌+◌, ◌≡◌, refl, sym, ap, ap₂, subst, Bool, true, false, not, ◌&&◌, List, [], ◌∷◌,
  ◌++◌, Option, none, some, some_inj, CString, str_eq, str_eq_refl, ◌==◌, ==_iff, map, arith,
  if◌then◌else◌, Bool-cases, inl, inr,
}
use legion_voice_mixer.Prelude.Int.{ℤ}
use legion_voice_mixer.Swap.{any}
use legion_voice_mixer.Glib.{StrSet, StrMap}
use legion_voice_mixer.Visibility.{Settings, Told, told_presence, VisRecord, Room}
use legion_voice_mixer.Visibility.Join.{roster_excludes}
use legion_voice_mixer.Visibility.Sender.{
  Watched, Judged, changed_standing, tell_of, tell_row, tell_all, pass_judged, judge,
  vis_transitions, standing, vis_transitions_quiet,
}

abbrev pub differ : Bool → Bool → Bool
differ true b = not b
differ false b = b

abbrev nth {ℓ} : {A : Type ℓ} → List A → ℕ → Option A
nth [] k = none
nth (x ∷ xs) zero = some x
nth (x ∷ xs) (suc k) = nth xs k

module _ (sets : StrSet) where
  -- May the listener `a` see the source `b`, at the last pass and now?
  abbrev pub before : Judged sets → Judged sets → Bool
  before a b = a.watched.vis_ok_last && b.watched.vis_ok_last

  abbrev pub after : Judged sets → Judged sets → Bool
  after a b = a.ok && b.ok

  -- Two displays of which the first is to be told of the second, as far as its exclusions go.
  abbrev pub is_concerned : Judged sets → Option CString → Option CString → Bool
  is_concerned a none db = false
  is_concerned a (some da) none = false
  is_concerned a (some da) (some db) =
      not (str_eq da db) && not (sets.contains a.watched.member.excluded db)

  abbrev pub shown : Option CString → CString
  shown none = []
  shown (some d) = d

  -- What the listener is to be told of one source.
  abbrev pub report : Judged sets → Judged sets → List Told
  report a b =
      if differ (before a b) (after a b)
        && is_concerned a a.watched.member.display b.watched.member.display
      then told_presence a.watched.member.user_id (shown b.watched.member.display) (after a b) ∷ []
      else []

  abbrev pub reports_to : Judged sets → List (Judged sets) → List Told
  reports_to a [] = []
  reports_to a (b ∷ bs) = report a b ++ reports_to a bs

  -- What every listener is to be told of every source.
  abbrev pub reports : List (Judged sets) → List (Judged sets) → List Told
  reports [] bs = []
  reports (a ∷ rest) bs = reports_to a bs ++ reports rest bs

  tell_of_lem :
      (a b : Judged sets) (da db : Option CString)
      → tell_of sets a b da db ≡ (
          if differ (before a b) (after a b) && is_concerned a da db
          then told_presence a.watched.member.user_id (shown db) (after a b) ∷ []
          else [])
  unfolding tell_of roster_excludes
  tell_of_lem a b none db = ground arith
  tell_of_lem a b (some da) none = ground arith
  tell_of_lem a b (some da) (some db) = ground arith

  concerned_self : (a : Judged sets) (d : Option CString) → is_concerned a d d ≡ false
  concerned_self a none = refl
  concerned_self a (some d) = ground (arith, str_eq_refl d)

  tell_of-report :
      (a b : Judged sets)
      → tell_of sets a b a.watched.member.display b.watched.member.display ≡ report a b
  tell_of-report a b = tell_of_lem a b a.watched.member.display b.watched.member.display

  report_self : (a : Judged sets) → report a a ≡ []
  report_self a = ground (arith, concerned_self a a.watched.member.display)

  tell_row-reports_to :
      (i j : ℕ) (a : Judged sets) (bs : List (Judged sets))
      → ((k : ℕ) → j + k ≡ i → nth bs k ≡ some a)
      → tell_row sets i a j bs ≡ reports_to a bs
  unfolding tell_row
  tell_row-reports_to i j a [] h = refl
  tell_row-reports_to i j a (b ∷ bs) h =
      let rest = tell_row-reports_to i (suc j) a bs (λ k e. h (suc k) (omega (arith, e))) in
      let head : (if i == j
            then []
            else tell_of sets a b a.watched.member.display b.watched.member.display)
          ≡ report a b =
        elim (Bool-cases (i == j)) [
          | inl same ↦
              let at : i ≡ j = (==_iff i j).0 same in
              let itself : b ≡ a = some_inj (h 0 (omega (arith, at))) in
              rw same (sym (subst (λ x. report a x ≡ []) (sym itself) (report_self a)))
          | inr other ↦ rw other (tell_of-report a b)
        ] in
      ap₂ ◌++◌ head rest

  tell_all-reports :
      (i : ℕ) (rest all : List (Judged sets))
      → ((k : ℕ) → nth rest k ≡ nth all (i + k))
      → tell_all sets i rest all ≡ reports rest all
  unfolding tell_all
  tell_all-reports i [] all h = refl
  tell_all-reports i (a ∷ rest) all h =
      ap₂ ◌++◌
        (tell_row-reports_to i 0 a all
          (λ k e. subst (λ x. nth all x ≡ some a) (omega (arith, e)) (sym (h 0))))
        (tell_all-reports (suc i) rest all
          (λ k. subst (λ x. nth rest k ≡ nth all x) (omega arith) (h (suc k))))

  report_quiet :
      (a b : Judged sets)
      → changed_standing sets a ≡ false
      → changed_standing sets b ≡ false
      → report a b ≡ []
  report_quiet a b h k = ground (arith, h, k)

  reports_to_quiet :
      (a : Judged sets) (bs : List (Judged sets))
      → changed_standing sets a ≡ false
      → any (changed_standing sets) bs ≡ false
      → reports_to a bs ≡ []
  reports_to_quiet a [] h k = refl
  reports_to_quiet a (b ∷ bs) h k =
      ap₂ ◌++◌ (report_quiet a b h (ground (arith, k)))
        (reports_to_quiet a bs h (ground (arith, k)))

  reports_quiet :
      (rest bs : List (Judged sets))
      → any (changed_standing sets) rest ≡ false
      → any (changed_standing sets) bs ≡ false
      → reports rest bs ≡ []
  reports_quiet [] bs h k = refl
  reports_quiet (a ∷ rest) bs h k =
      ap₂ ◌++◌ (reports_to_quiet a bs (ground (arith, h)) k)
        (reports_quiet rest bs (ground (arith, h)) k)

module _ (sets : StrSet) (maps : StrMap (VisRecord sets)) (settings : Settings) where
  -- The sessions with their standing now.
  abbrev pub judged : Room sets maps → ℤ → List (Watched sets) → List (Judged sets)
  judged room now ws = map (judge sets maps settings room now) ws

  -- A pass tells each listener of each source whose visibility to it changed since the last pass, and
  -- nothing else: both have displays, which are not the same, and the listener does not exclude the
  -- source. The sessions keep their standing of now, so that a second pass at the same time tells nobody
  -- anything.
  pub vis_transitions_settled :
      (room : Room sets maps) (now : ℤ) (ws : List (Watched sets))
      → ((vis_transitions sets maps settings room now ws).told
          ≡ reports sets (judged room now ws) (judged room now ws))
        × (map
              (λ (w : Watched sets). w.vis_ok_last)
              (vis_transitions sets maps settings room now ws).sessions
            ≡ map (standing sets maps settings room now) ws)
        × ((vis_transitions sets maps settings room now
              (vis_transitions sets maps settings room now ws).sessions).told
            ≡ [])
  unfolding vis_transitions pass_judged
  vis_transitions_settled room now ws =
      let ps = judged room now ws in
      let (kept, once) = vis_transitions_quiet sets maps settings room now ws in
      (
        elim (Bool-cases (any (changed_standing sets) ps)) [
          | inl changed ↦
              rw changed (tell_all-reports sets 0 ps ps (λ k. ap (nth ps) (omega arith)))
          | inr same ↦ rw same (sym (reports_quiet sets ps ps same same))
        ],
        kept,
        once,
      )
