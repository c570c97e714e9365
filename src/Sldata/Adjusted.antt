-- ===== src/Sldata/Adjusted.antt =====
-- The table of targets of a message as a map from names, cut to 39 bytes, to adjustments.
use legion_voice_mixer.Prelude.{
  test_some, ℕ, zero, suc, ◌+◌, ◌≤◌, ◌≡◌, refl, sym, ap, ◌∙◌, subst, true, false, ◌||◌, List, [],
  ◌∷◌, Option, none, some, CString, str_eq, str_eq_refl, eq_of_str_eq, take, length, ltb, ltb→lt,
  if◌then◌else◌, arith, Bool-cases, Option-cases, inl, inr, some_inj, some_absurd, true_absurd,
}
use legion_voice_mixer.Glib.{is_some}
use legion_voice_mixer.Columns.{uuid_copy}
use legion_voice_mixer.Doubles.{Doubles}
use legion_voice_mixer.Sldata.{max_peers, PeerAdj}
use legion_voice_mixer.Sldata.Peers.{same_target, fresh, adjust_from, adjust}

same_target_eq : (a b : CString) → same_target a b ≡ true → take 39 a ≡ take 39 b
unfolding same_target
same_target_eq a b h = eq_of_str_eq (take 39 a) (take 39 b) h

same_target_of : (a b : CString) → take 39 a ≡ take 39 b → same_target a b ≡ true
unfolding same_target
same_target_of a b h = rw h (str_eq_refl (take 39 b))

-- Targets that are the same are the same against every other.
same_target_cong : (a b c : CString) → same_target a b ≡ true → same_target a c ≡ same_target b c
unfolding same_target
same_target_cong a b c h = ap (λ s. str_eq s (take 39 c)) (same_target_eq a b h)

same_target_join :
    (a b c : CString) → same_target a c ≡ true → same_target b c ≡ true → same_target a b ≡ true
same_target_join a b c h k = same_target_of a b (same_target_eq a c h ∙ sym (same_target_eq b c k))

take-take : (n : ℕ) (s : CString) → take n (take n s) ≡ take n s
take-take zero s = refl
take-take (suc n) [] = refl
take-take (suc n) (c ∷ s) = ap (◌∷◌ c) (take-take n s)

same_target-uuid_copy : (a b : CString) → same_target (uuid_copy a) b ≡ same_target a b
unfolding same_target uuid_copy
same_target-uuid_copy a b = ap (λ s. str_eq s (take 39 b)) (take-take 39 a)

module _ (doubles : Doubles) where
  -- The entry of a target.
  abbrev pub find : CString → List (PeerAdj doubles) → Option (PeerAdj doubles)
  find u [] = none
  find u (p ∷ ps) = if same_target p.uuid u then some p else find u ps

  abbrev pub or_fresh : CString → Option (PeerAdj doubles) → PeerAdj doubles
  or_fresh u none = fresh doubles u
  or_fresh u (some p) = p

  -- A change that leaves the name.
  abbrev pub KeepsName : (PeerAdj doubles → PeerAdj doubles) → Type 0
  KeepsName change = (p : PeerAdj doubles) → (change p).uuid ≡ p.uuid

  module _ (u : CString) (change : PeerAdj doubles → PeerAdj doubles)
      (keeps : KeepsName change) where
    adjust_from-find :
        (n : ℕ) (ps ps' : List (PeerAdj doubles)) (v : CString)
        → adjust_from doubles n u change ps ≡ some ps'
        → find v ps'
          ≡ (if same_target u v then some (change (or_fresh u (find u ps))) else find v ps)
    unfolding adjust_from
    adjust_from-find n [] ps' v h =
        let (room, e) = test_some (ltb n max_peers) (some (change (fresh doubles u) ∷ [])) ps' h in
        subst (λ x. find v x ≡ (if same_target u v then some (change (fresh doubles u)) else none))
          (some_inj e) (rw (keeps (fresh doubles u), same_target-uuid_copy u v) refl)
    adjust_from-find n (p ∷ ps) ps' v h = elim (Bool-cases (same_target p.uuid u)) [
      | inl same ↦
          let e : change p ∷ ps ≡ ps' = some_inj (rw same at h) in
          subst
            (λ x. find v x ≡ (
              if same_target u v
              then some (change (or_fresh u (find u (p ∷ ps))))
              else find v (p ∷ ps)))
            e (rw (same, keeps p, same_target_cong p.uuid u v same) (ground arith))
      | inr other ↦ elim (Option-cases (adjust_from doubles (n + 1) u change ps)) [
        | inl full ↦ absurd (some_absurd (rw (other, full) at h))
        | inr (qs, e) ↦
            let k : p ∷ qs ≡ ps' = some_inj (rw (other, e) at h) in
            let ih = adjust_from-find (n + 1) ps qs v e in
            let apart : same_target p.uuid v ≡ true → same_target u v ≡ false = λ at.
              elim (Bool-cases (same_target u v)) [
                | inl both ↦
                    absurd (true_absurd (sym (same_target_join p.uuid u v at both) ∙ other))
                | inr no_match ↦ no_match
              ] in
            subst
              (λ x. find v x ≡ (
                if same_target u v
                then some (change (or_fresh u (find u (p ∷ ps))))
                else find v (p ∷ ps)))
              k (rw other (ground (arith, ih, apart)))
      ]
    ]

    adjust_from-find_none :
        (n filled : ℕ) (ps : List (PeerAdj doubles))
        → n + length ps ≡ filled
        → is_some (adjust_from doubles n u change ps)
          ≡ (is_some (find u ps) || ltb filled max_peers)
    unfolding adjust_from
    adjust_from-find_none n filled [] h = ground arith
    adjust_from-find_none n filled (p ∷ ps) h =
        ground (arith, adjust_from-find_none (n + 1) filled ps (omega arith))

    length-adjust_from :
        (n : ℕ) (ps ps' : List (PeerAdj doubles))
        → adjust_from doubles n u change ps ≡ some ps'
        → n + length ps ≤ max_peers
        → n + length ps' ≤ max_peers
    unfolding adjust_from
    length-adjust_from n [] ps' h l =
        let (room, e) = test_some (ltb n max_peers) (some (change (fresh doubles u) ∷ [])) ps' h in
        subst (λ x. n + length x ≤ max_peers) (some_inj e) (omega (arith, ltb→lt n max_peers room))
    length-adjust_from n (p ∷ ps) ps' h l = elim (Bool-cases (same_target p.uuid u)) [
      | inl same ↦
          let e : change p ∷ ps ≡ ps' = some_inj (rw same at h) in
          subst (λ x. n + length x ≤ max_peers) e l
      | inr other ↦ elim (Option-cases (adjust_from doubles (n + 1) u change ps)) [
        | inl full ↦ absurd (some_absurd (rw (other, full) at h))
        | inr (qs, e) ↦
            let k : p ∷ qs ≡ ps' = some_inj (rw (other, e) at h) in
            subst (λ x. n + length x ≤ max_peers) k
              (omega (arith, length-adjust_from (n + 1) ps qs e (omega arith)))
      ]
    ]

    -- What one target's adjustment does to the table: while there is room for a new name, or the target is
    -- there, its entry (found by its first 39 bytes) is changed, or made from nothing and then changed, and
    -- every other target keeps its own; otherwise the adjustment is dropped. The table never grows past 32.
    pub adjust_lem :
        (ps : List (PeerAdj doubles))
        → length ps ≤ max_peers
        → (is_some (adjust doubles u change ps)
            ≡ (is_some (find u ps) || ltb (length ps) max_peers))
          × ((ps' : List (PeerAdj doubles))
              → adjust doubles u change ps ≡ some ps'
              → (length ps' ≤ max_peers)
                × ((v : CString)
                    → find v ps' ≡ (
                        if same_target u v
                        then some (change (or_fresh u (find u ps)))
                        else find v ps)))
    unfolding adjust
    adjust_lem ps l = (
      adjust_from-find_none 0 (length ps) ps (omega arith),
      λ ps' h. (
        omega (arith, length-adjust_from 0 ps ps' h (omega arith)),
        λ v. adjust_from-find 0 ps ps' v h,
      ),
    )
