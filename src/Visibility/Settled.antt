-- ===== src/Visibility/Settled.antt =====
-- What the authority check leaves for every listener that a batch names, and of the room's authority.
use legion_voice_mixer.Prelude.{
  ℕ, ◌≤◌, ◌≡◌, Bool, true, false, ◌&&◌, ◌||◌, [], ◌∷◌, Option, none, some, CString, str_eq, ◌==◌,
  arith, Option-cases, Bool-cases, inl, inr, eq_of_str_eq, ap, ◌∙◌,
}
use legion_voice_mixer.Prelude.Int.{ℤ, eqb_ℤ}
use legion_voice_mixer.Glib.{StrSet, StrMap}
use legion_voice_mixer.Columns.{Column, col_has}
use legion_voice_mixer.Columns.Laws.{col_has-append}
use legion_voice_mixer.Visibility.{Settings, VisBatch, VisRecord}
use legion_voice_mixer.Visibility.Channels.{for_each}
use legion_voice_mixer.Visibility.Batch.{is_replace}
use legion_voice_mixer.Visibility.Authority.{
  max_records, Checking, arm, advance, fresh_record, arm_listener, advance_listener, check_listener,
}

module _ (sets : StrSet) (maps : StrMap (VisRecord sets)) (settings : Settings) where
  open maps use {Map, lookup, insert, size, lookup_insert, size_insert}

  -- Was the record set by this generation, at this time, in this epoch?
  abbrev pub is_current : ℕ → ℕ → ℤ → Option (VisRecord sets) → Bool
  is_current epoch gen now none = false
  is_current epoch gen now (some r) =
      r.epoch == epoch && (r.listener_gen == gen && eqb_ℤ r.confirmed_us now)

  -- A listener is settled when it is answered as stale, or as unarmed, or its record is current.
  abbrev pub settled : ℕ → ℕ → ℤ → CString → Checking sets maps settings → Bool
  settled epoch gen now k c =
      col_has c.out.stale k
      || (col_has c.out.unarmed k || is_current epoch gen now (lookup c.room.vis_records k))

  -- What one listener's check keeps, and what it settles.
  abbrev Settles :
      Bool
      → ℕ
      → ℕ
      → ℤ
      → CString
      → CString
      → Checking sets maps settings
      → Checking sets maps settings
      → Type 0
  Settles enforced epoch gen now s k c c' =
      (c'.room.vis_auth_epoch ≡ c.room.vis_auth_epoch)
      × (((str_eq s k || settled epoch gen now k c) ≡ true) → settled epoch gen now k c' ≡ true)
      × (size c.room.vis_records ≤ max_records → size c'.room.vis_records ≤ max_records)
      × (c'.room.vis_policy_gen ≡ c.room.vis_policy_gen)
      × (c'.out.refused ≡ c.out.refused)
      × (col_has c.out.skip k ≡ (enforced && col_has c.out.stale k)
          → col_has c'.out.skip k ≡ (enforced && col_has c'.out.stale k))

  pub lookup-cong : (m : Map) (s k : CString) → str_eq s k ≡ true → lookup m s ≡ lookup m k
  lookup-cong m s k h = ap (lookup m) (eq_of_str_eq s k h)

  arm_listener-Settles :
      (enforced : Bool) (vb : VisBatch) (gen : ℕ) (now : ℤ) (s k : CString)
      (c : Checking sets maps settings)
      → Settles enforced c.room.vis_auth_epoch gen now s k c
          (arm_listener sets maps settings vb gen now s c)
  unfolding arm_listener col_has
  arm_listener-Settles enforced vb gen now s k c =
      elim (Option-cases (lookup c.room.vis_records s)) [
        | inl n ↦
            let v =
              arm sets maps settings vb s gen now c.room.vis_auth_epoch
                (fresh_record sets maps settings) in
            ground (
              arith,
              n,
              col_has-append c.out.unarmed (s ∷ []) k,
              lookup_insert c.room.vis_records s k v,
              size_insert c.room.vis_records s v,
            )
        | inr (r, e) ↦
            let v = arm sets maps settings vb s gen now c.room.vis_auth_epoch r in
            ground
              (arith, e, lookup_insert c.room.vis_records s k v, size_insert c.room.vis_records s v)
      ]

  advance_listener-Settles :
      (enforced : Bool) (vb : VisBatch) (gen : ℕ) (now : ℤ) (s k : CString)
      (c : Checking sets maps settings)
      → Settles enforced c.room.vis_auth_epoch gen now s k c
          (advance_listener sets maps settings enforced vb gen now s c)
  unfolding advance_listener col_has
  advance_listener-Settles enforced vb gen now s k c =
      elim (Option-cases (lookup c.room.vis_records s)) [
        | inl n ↦ ground (arith, n, col_has-append c.out.stale (s ∷ []) k)
        | inr (r, e) ↦
            let v = advance sets maps settings vb s gen now r in
            let w = record r { stale = true } in
            ground (
              arith,
              e,
              lookup_insert c.room.vis_records s k v,
              size_insert c.room.vis_records s v,
              lookup_insert c.room.vis_records s k w,
              size_insert c.room.vis_records s w,
              col_has-append c.out.stale (s ∷ []) k,
              lookup-cong c.room.vis_records s k,
            )
      ]

  check_listener-Settles :
      (enforced : Bool) (vb : VisBatch) (gen : ℕ) (now : ℤ) (s k : CString)
      (c : Checking sets maps settings)
      → Settles enforced c.room.vis_auth_epoch gen now s k c
          (check_listener sets maps settings enforced vb gen now s c)
  unfolding check_listener
  check_listener-Settles enforced vb gen now s k c = elim (Bool-cases (is_replace vb.op)) [
    | inl t ↦ rw t (arm_listener-Settles enforced vb gen now s k c)
    | inr f ↦ rw f (advance_listener-Settles enforced vb gen now s k c)
  ]

  abbrev pub check_all :
      Bool → VisBatch → ℕ → ℤ → Column → Checking sets maps settings → Checking sets maps settings
  check_all enforced vb gen now ks c =
      for_each (check_listener sets maps settings enforced vb gen now) ks c

  -- After the loop every listener of the list is settled.
  pub check_all-settled :
      (enforced : Bool) (vb : VisBatch) (gen : ℕ) (now : ℤ) (k : CString) (ks : Column)
      (c : Checking sets maps settings)
      → ((check_all enforced vb gen now ks c).room.vis_auth_epoch ≡ c.room.vis_auth_epoch)
        × (((col_has ks k || settled c.room.vis_auth_epoch gen now k c) ≡ true)
            → settled c.room.vis_auth_epoch gen now k (check_all enforced vb gen now ks c) ≡ true)
        × (size c.room.vis_records ≤ max_records
            → size (check_all enforced vb gen now ks c).room.vis_records ≤ max_records)
        × ((check_all enforced vb gen now ks c).room.vis_policy_gen ≡ c.room.vis_policy_gen)
        × ((check_all enforced vb gen now ks c).out.refused ≡ c.out.refused)
        × (col_has c.out.skip k ≡ (enforced && col_has c.out.stale k)
            → col_has (check_all enforced vb gen now ks c).out.skip k
              ≡ (enforced && col_has (check_all enforced vb gen now ks c).out.stale k))
  unfolding col_has
  check_all-settled enforced vb gen now k [] c = ground arith
  check_all-settled enforced vb gen now k (s ∷ ks) c =
      let step = check_listener sets maps settings enforced vb gen now s c in
      let (a1, a2, a3, a4, a5, a6) = check_listener-Settles enforced vb gen now s k c in
      let (b1, b2, b3, b4, b5, b6) = check_all-settled enforced vb gen now k ks step in
      (
        b1 ∙ a1,
        λ h. ground (arith, a1, a2, b2, h),
        λ h. b3 (a3 h),
        b4 ∙ a4,
        b5 ∙ a5,
        λ h. b6 (a6 h),
      )
