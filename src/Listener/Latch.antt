-- ===== src/Listener/Latch.antt =====
-- The hysteresis of the distance cull: the table of slots against a map from names to their last verdicts.
use legion_voice_mixer.Prelude.{
  ℕ, zero, suc, ◌+◌, ◌<◌, ◌≡◌, refl, ap, subst, ◌∙◌, Bool, true, false, not, ◌||◌, List, [], ◌∷◌,
  ◌++◌, Option, none, some, CString, str_eq, str_eq_iff, eq_of_str_eq, length, ltb, get_or, set,
  arith, uuid_len, if◌then◌else◌, Bool-cases, Option-cases, inl, inr, some_inj,
}
use legion_voice_mixer.Glib.{is_some}
use legion_voice_mixer.Columns.{uuid_copy}
use legion_voice_mixer.Columns.Laws.{take-all}
use legion_voice_mixer.Doubles.{Doubles}
use legion_voice_mixer.Listener.{max_mix, CullHyst}
use legion_voice_mixer.Listener.Cull.{slot_of, latch, new_slot, distance_cull}

abbrev no_slot : CullHyst
no_slot = record { uuid = []; culled = false; seen_tick = 0 }

-- The last verdict that the table has of a name.
abbrev pub remembered : List CullHyst → CString → Option Bool
remembered [] u = none
remembered (s ∷ ss) u = if str_eq s.uuid u then some s.culled else remembered ss u

slot_of-unknown :
    (u : CString) (ss : List CullHyst) (k : ℕ) → slot_of u ss k ≡ none → remembered ss u ≡ none
unfolding slot_of
slot_of-unknown u [] k h = refl
slot_of-unknown u (s ∷ ss) k h = ground (arith, h, slot_of-unknown u ss (suc k))

-- The place of a name, as one of the list.
slot_of-place :
    (u : CString) (ss : List CullHyst) (k j : ℕ) → slot_of u ss k ≡ some j → (i : ℕ) × (j ≡ k + i)
unfolding slot_of
slot_of-place u [] k j h = absurd ground (arith, h)
slot_of-place u (s ∷ ss) k j h = elim (Bool-cases (str_eq s.uuid u)) [
  | inl same ↦ (0, ground (arith, h, same))
  | inr other ↦
      let (i, e) = slot_of-place u ss (suc k) j (rw other at h) in (suc i, omega (arith, e))
]

-- A slot at a name's place, under the name that it has there.
abbrev judged : List CullHyst → ℕ → Bool → ℕ → CullHyst
judged ss i culled tick = record {
  uuid = (get_or ss i no_slot).uuid;
  culled = culled;
  seen_tick = tick;
}

slot_of-known :
    (v : CString) (ss : List CullHyst) (i k : ℕ) (culled : Bool) (tick : ℕ)
    → slot_of v ss k ≡ some (k + i)
    → (remembered ss v ≡ some (get_or ss i no_slot).culled)
      × ((u : CString)
          → remembered (set ss i (judged ss i culled tick)) u
            ≡ (if str_eq v u then some culled else remembered ss u))
unfolding slot_of
slot_of-known v [] i k culled tick h = cc
slot_of-known v (s ∷ ss) zero k culled tick h = elim (Bool-cases (str_eq s.uuid v)) [
  | inl same ↦ (
    rw same refl,
    λ u. ground (arith, same, str_eq_iff s.uuid v, str_eq_iff s.uuid u, str_eq_iff v u),
  )
  | inr other ↦
      let (i, e) = slot_of-place v ss (suc k) (k + 0) (rw other at h) in absurd (omega (arith, e))
]
slot_of-known v (s ∷ ss) (suc i) k culled tick h = elim (Bool-cases (str_eq s.uuid v)) [
  | inl same ↦ absurd (first_place (some_inj (rw same at h)))
  | inr other ↦
      let later : slot_of v ss (suc k) ≡ some (suc k + i) =
        subst (λ x. slot_of v ss (suc k) ≡ some x) (omega arith) (rw other at h) in
      let (found, put) = slot_of-known v ss i (suc k) culled tick later in
      (
        rw other found,
        λ u. ground (arith, other, put u, str_eq_iff s.uuid u, str_eq_iff v u, str_eq_iff s.uuid v),
      )
]
  where
    first_place : k ≡ k + suc i → ⊥
    first_place e = omega arith

remembered-append :
    (s : CullHyst) (ss : List CullHyst) (u : CString)
    → remembered ss s.uuid ≡ none
    → remembered (ss ++ s ∷ []) u ≡ (if str_eq s.uuid u then some s.culled else remembered ss u)
remembered-append s [] u h = refl
remembered-append s (q ∷ ss) u h = ground (
  arith,
  h,
  remembered-append s ss u,
  str_eq_iff s.uuid u,
  str_eq_iff q.uuid u,
  str_eq_iff q.uuid s.uuid,
)

module _ (doubles : Doubles) (cutoff_dist readd_dist : doubles.Real) where
  abbrev pub cull : List CullHyst → CString → doubles.Real → ℕ → Bool × List CullHyst
  cull = distance_cull doubles cutoff_dist readd_dist

  -- The verdict at a distance, after the last verdict if there is one.
  abbrev pub verdict : Option Bool → doubles.Real → Bool
  verdict (some true) d = not (doubles.lt d readd_dist)
  verdict o d = doubles.lt cutoff_dist d

  latch-verdict :
      (culled : Bool) (d : doubles.Real)
      → latch doubles cutoff_dist readd_dist culled d ≡ verdict (some culled) d
  unfolding latch
  latch-verdict true d = refl
  latch-verdict false d = refl

  -- A name that is new to a full table takes the slot of another.
  abbrev pub has_place : CString → List CullHyst → Bool
  has_place v ss = is_some (remembered ss v) || ltb (length ss) max_mix

  cull_lem :
      (ss : List CullHyst) (v : CString) (d : doubles.Real) (tick : ℕ)
      → length v < uuid_len
      → has_place v ss ≡ true
      → ((cull ss v d tick).0 ≡ verdict (remembered ss v) d)
        × ((u : CString)
            → remembered (cull ss v d tick).1 u
              ≡ (if str_eq v u then some (verdict (remembered ss v) d) else remembered ss u))
  unfolding distance_cull new_slot uuid_copy
  cull_lem ss v d tick short place = elim (Option-cases (slot_of v ss 0)) [
    | inl n ↦
        let unknown = slot_of-unknown v ss 0 n in
        let room : ltb (length ss) max_mix ≡ true = ground (arith, place, unknown) in
        rw (n, distance_cull, take-all 39 v (omega arith), unknown)
          (
            refl,
            λ u.
                rw (new_slot, room)
                  (remembered-append
                    (record { uuid = v; culled = doubles.lt cutoff_dist d; seen_tick = tick }) ss u
                    unknown),
          )
    | inr (k, e) ↦
        let at : slot_of v ss 0 ≡ some (0 + k) = e ∙ ap some (omega arith) in
        let c = (get_or ss k no_slot).culled in
        let now_culled = latch doubles cutoff_dist readd_dist c d in
        let (found, put) = slot_of-known v ss k 0 now_culled tick at in
        rw (e, distance_cull, found)
          (
            latch-verdict c d,
            λ u.
                put u
                ∙ ap (λ b. if str_eq v u then some b else remembered ss u) (latch-verdict c d),
          )
  ]

  -- Calls of the cull, each with its source, its distance and its tick.
  abbrev pub Call : Type 0
  Call = CString × doubles.Real × ℕ

  abbrev pub culls : List Call → List CullHyst → List CullHyst
  culls [] ss = ss
  culls ((v, d, tick) ∷ calls) ss = culls calls (cull ss v d tick).1

  -- Every call has a name that fits a slot, and never takes another's.
  abbrev pub HavePlaces : List Call → List CullHyst → Type 0
  HavePlaces [] ss = Unit {0}
  HavePlaces ((v, d, tick) ∷ calls) ss =
      (length v < uuid_len) × (has_place v ss ≡ true) × HavePlaces calls (cull ss v d tick).1

  -- The last verdict of a source after calls, from its own distances only.
  abbrev pub last_verdict : CString → List Call → Option Bool → Option Bool
  last_verdict u [] o = o
  last_verdict u ((v, d, tick) ∷ calls) o =
      last_verdict u calls (if str_eq v u then some (verdict o d) else o)

  own_verdict :
      (v u : CString) (ss : List CullHyst) (d : doubles.Real)
      → (if str_eq v u then some (verdict (remembered ss v) d) else remembered ss u)
        ≡ (if str_eq v u then some (verdict (remembered ss u) d) else remembered ss u)
  own_verdict v u ss d = elim (Bool-cases (str_eq v u)) [
    | inl same ↦ rw same (ap (λ x. some (verdict (remembered ss x) d)) (eq_of_str_eq v u same))
    | inr other ↦ rw other refl
  ]

  remembered-culls :
      (calls : List Call) (ss : List CullHyst) (u : CString)
      → HavePlaces calls ss
      → remembered (culls calls ss) u ≡ last_verdict u calls (remembered ss u)
  remembered-culls [] ss u h = refl
  remembered-culls ((v, d, tick) ∷ calls) ss u (short, place, h) =
      let (_, step) = cull_lem ss v d tick short place in
      remembered-culls calls (cull ss v d tick).1 u h
      ∙ ap (last_verdict u calls) (step u ∙ own_verdict v u ss d)

  -- After any calls, of any sources whose names fit a slot, none of which had to take another's slot, the
  -- verdict of a source that does not have to either is the plain threshold if the table never had it, and
  -- follows from its own last one otherwise: a source that was culled stays so until it is nearer than the
  -- distance of its return, and one that was heard stays so until it is further than the cutoff.
  pub distance_cull_latched :
      (calls : List Call) (ss : List CullHyst) (u : CString) (d : doubles.Real) (tick : ℕ)
      → HavePlaces calls ss
      → length u < uuid_len
      → has_place u (culls calls ss) ≡ true
      → (cull (culls calls ss) u d tick).0 ≡ verdict (last_verdict u calls (remembered ss u)) d
  distance_cull_latched calls ss u d tick places short place =
      (cull_lem (culls calls ss) u d tick short place).0
      ∙ ap (λ o. verdict o d) (remembered-culls calls ss u places)
