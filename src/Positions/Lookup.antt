-- ===== src/Positions/Lookup.antt =====
-- The table of points as a map: what a name is found at after a request is applied.
use legion_voice_mixer.Prelude.{
  ◌⊎◌, some_inj, true_absurd, some_absurd, ℕ, ◌≡◌, ◌≢◌, sym, ◌∙◌, subst, true, false, not, ◌&&◌,
  Option, none, some, CString, leb, str_eq, eq_of_str_eq, arith, if◌then◌else◌, Bool-cases,
  Option-cases, inl, inr,
}
use legion_voice_mixer.Prelude.Int.{ℤ}
use legion_voice_mixer.Glib.{is_some}
use legion_voice_mixer.Positions.{slots, store_max, PosEntry}
use legion_voice_mixer.Positions.Store.{Sim, Store, stops, pos_hash, probe, store_at, point_at}
use legion_voice_mixer.Positions.Probe.{get_or-set_self, get_or-set_ne, slot, probe_from-stops}
use legion_voice_mixer.Positions.Invariant.{IsValid, store_at-IsValid}

-- The point of a name as it is stored.
abbrev pub point : Store → CString → Option Sim
point st u = point_at st.slot (probe st.slot u)

-- A point found for a name stands in a slot and bears the name.
point-slot :
    (st : Store) (u : CString) (s : Sim)
    → point st u ≡ some s
    → (j : ℕ) × (slot st.slot j ≡ some s) × (str_eq s.e.uuid u ≡ true)
unfolding probe stops
point-slot st u s h = elim (Option-cases (probe st.slot u)) [
  | inl e ↦ absurd (some_absurd (subst (λ o. point_at st.slot o ≡ some s) e h))
  | inr (j, e) ↦
      let h' : slot st.slot j ≡ some s = subst (λ o. point_at st.slot o ≡ some s) e h in
      let p = (probe_from-stops st.slot u (pos_hash u) 0 slots j e).0 in
      (j, h', subst (λ o. stops u o ≡ true) h' p)
]

-- A stored point is what its name is found at.
slot-point :
    (st : Store) (s : Sim) (j : ℕ)
    → IsValid st
    → slot st.slot j ≡ some s
    → point st s.e.uuid ≡ some s
slot-point st s j v h = rw (v.placed j s h) h

module _ (st : Store) (e : PosEntry) (now : ℤ) (j : ℕ) (v : IsValid st)
    (ends : probe st.slot e.uuid ≡ some j)
    (room : (not (is_some (slot st.slot j)) && leb store_max st.count) ≡ false) where
  abbrev stored : Store
  stored = store_at j e now st

  abbrev new_point : Sim
  new_point = record { e = e; recv_us = now }

  stored-IsValid : IsValid stored
  stored-IsValid = store_at-IsValid st e now j v ends room

  slot_self : slot stored.slot j ≡ some new_point
  unfolding store_at probe
  slot_self =
      get_or-set_self st.slot j (some new_point) none
        (omega (arith, probe_from-stops st.slot e.uuid (pos_hash e.uuid) 0 slots j ends, v.sized))

  slot-other : (k : ℕ) → j ≢ k → slot stored.slot k ≡ slot st.slot k
  unfolding store_at
  slot-other k d = get_or-set_ne st.slot j k (some new_point) none d

  -- A slot that holds another name, before or after, is not the one that is written.
  not_self :
      (u : CString) (k : ℕ) (s : Sim)
      → str_eq e.uuid u ≡ false
      → str_eq s.e.uuid u ≡ true
      → (slot stored.slot k ≡ some s) ⊎ (slot st.slot k ≡ some s)
      → j ≢ k
  unfolding probe stops
  not_self u k s d n (inl h) same =
      let here : new_point ≡ s =
        some_inj (sym slot_self ∙ subst (λ i. slot stored.slot i ≡ some s) (sym same) h) in
      absurd (true_absurd (sym (subst (λ (x : Sim). str_eq x.e.uuid u ≡ true) (sym here) n) ∙ d))
  not_self u k s d n (inr h) same =
      let p = (probe_from-stops st.slot e.uuid (pos_hash e.uuid) 0 slots j ends).0 in
      let here : slot st.slot j ≡ some s = subst (λ i. slot st.slot i ≡ some s) (sym same) h in
      let own : s.e.uuid ≡ e.uuid =
        eq_of_str_eq s.e.uuid e.uuid (subst (λ o. stops e.uuid o ≡ true) here p) in
      absurd (true_absurd (sym (subst (λ x. str_eq x u ≡ true) own n) ∙ d))

  pub point-store_at :
      (u : CString) → point stored u ≡ (if str_eq e.uuid u then some new_point else point st u)
  point-store_at u = elim (Bool-cases (str_eq e.uuid u)) [
    | inl same ↦
        rw (same, ← eq_of_str_eq e.uuid u same)
          (slot-point stored new_point j stored-IsValid slot_self)
    | inr d ↦ rw d (elim (Option-cases (point stored u)) [
      | inr (s, h) ↦
          let (k, at, n) = point-slot stored u s h in
          let old = sym (slot-other k (not_self u k s d n (inl at))) ∙ at in
          let old_point = slot-point st s k v old in
          h ∙ sym (subst (λ x. point st x ≡ some s) (eq_of_str_eq s.e.uuid u n) old_point)
      | inl h ↦ elim (Option-cases (point st u)) [
        | inl h' ↦ h ∙ sym h'
        | inr (s, h') ↦
            let (k, at, n) = point-slot st u s h' in
            let new = slot-other k (not_self u k s d n (inr at)) ∙ at in
            let new_here = slot-point stored s k stored-IsValid new in
            absurd (
              some_absurd
                (sym h ∙ subst (λ x. point stored x ≡ some s) (eq_of_str_eq s.e.uuid u n) new_here))
      ]
    ])
  ]
