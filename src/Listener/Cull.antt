-- ===== src/Listener/Cull.antt =====
-- The distance cull with hysteresis, `janus_slvoice_distance_cull_locked` of src/janus_slvoice.c.
use legion_voice_mixer.Prelude.{
  ℕ, suc, Bool, true, false, not, List, [], ◌∷◌, ◌++◌, Option, none, some, CString, str_eq, length,
  ltb, get_or, set, if◌then◌else◌,
}
use legion_voice_mixer.Columns.{uuid_copy}
use legion_voice_mixer.Doubles.{Doubles}
use legion_voice_mixer.Listener.{max_mix, CullHyst}

-- The place of a source's slot.
unfoldable pub slot_of : CString → List CullHyst → ℕ → Option ℕ
slot_of uuid [] k = none
slot_of uuid (s ∷ ss) k =
    let later = slot_of uuid ss (suc k) in if str_eq s.uuid uuid then some k else later

-- The place of the first of the least recently seen slots, where `best` and `tick` are of the slots before.
unfoldable pub lru_from : List CullHyst → ℕ → ℕ → ℕ → ℕ
lru_from [] k best tick = best
lru_from (s ∷ ss) k best tick =
    lru_from ss (suc k) (if ltb s.seen_tick tick then k else best)
      (if ltb s.seen_tick tick then s.seen_tick else tick)

unfoldable pub lru : List CullHyst → ℕ
unfolding lru_from
lru [] = 0
lru (s ∷ ss) = lru_from ss 1 0 s.seen_tick

module _ (doubles : Doubles) (cutoff_dist readd_dist : doubles.Real) where
  -- The latch after a distance, at a slot that is there.
  unfoldable pub latch : Bool → doubles.Real → Bool
  latch true d = not (doubles.lt d readd_dist)
  latch false d = doubles.lt cutoff_dist d

  -- A new slot, appended while there is room and else in the place of the least recently seen.
  unfoldable pub new_slot : CullHyst → List CullHyst → List CullHyst
  unfolding lru
  new_slot s ss = if ltb (length ss) max_mix then ss ++ s ∷ [] else set ss (lru ss) s

  abbrev pub slot_at : List CullHyst → ℕ → CullHyst
  slot_at ss k = get_or ss k (record { uuid = []; culled = false; seen_tick = 0 })

  -- `janus_slvoice_distance_cull_locked`: the verdict and the table.
  unfoldable pub distance_cull : List CullHyst → CString → doubles.Real → ℕ → Bool × List CullHyst
  unfolding slot_of latch new_slot uuid_copy
  distance_cull ss uuid d now_tick = elim (slot_of uuid ss 0) [
    | none ↦
        let culled = doubles.lt cutoff_dist d in
        (
          culled,
          new_slot (record { uuid = uuid_copy uuid; culled = culled; seen_tick = now_tick }) ss,
        )
    | some k ↦
        let culled = latch (slot_at ss k).culled d in
        (
          culled,
          set ss k (record { uuid = (slot_at ss k).uuid; culled = culled; seen_tick = now_tick }),
        )
  ]
