-- ===== src/Positions/Totals.antt =====
-- What an observation counts, for the participant and for the room, against a description of its verdict;
-- and what the room's gauges hold after a tick.
use legion_voice_mixer.Prelude.{
  ℕ, ◌*◌, ◌≡◌, refl, Bool, true, false, not, ◌&&◌, ◌||◌, Option, none, some, if◌then◌else◌,
  Bool-cases, inl, inr,
}
use legion_voice_mixer.Prelude.Int.{ℤ, pos, ltb_ℤ}
use legion_voice_mixer.Doubles.{Doubles}
use legion_voice_mixer.Positions.{stale_ms}
use legion_voice_mixer.Positions.Store.{Sim}
use legion_voice_mixer.Positions.Observe.{
  age_of, inc32, inc64, PartStats, RoomTicks, Claim, tolerance_now, deviation, count_no_sim,
  count_use_sim, count_clamp, compare_claim, observe_sim, observe,
}

abbrev pub bump64 : Bool → ℕ → ℕ
bump64 b n = if b then inc64 n else n

abbrev pub bump32 : Bool → ℕ → ℕ
bump32 b n = if b then inc32 n else n

module _ (doubles : Doubles) where
  -- Whether a point is within the age that counts as fresh.
  abbrev pub is_fresh : Option Sim → ℤ → Bool
  is_fresh none now = false
  is_fresh (some s) now = not (ltb_ℤ (pos (stale_ms * 1000)) (age_of s now))

  abbrev pub is_stale : Option Sim → ℤ → Bool
  is_stale none now = false
  is_stale (some s) now = ltb_ℤ (pos (stale_ms * 1000)) (age_of s now)

  -- Whether the claim is a number and further from a fresh point than its tolerance.
  abbrev pub is_beyond : Option Sim → ℤ → Bool → Claim doubles → Bool
  is_beyond none now has_sp claim = false
  is_beyond (some s) now has_sp claim =
      is_fresh (some s) now
      && (has_sp
          && (not (doubles.is_nan (deviation doubles s claim))
              && doubles.lt (doubles.of_int (pos 0)) (
                  doubles.sub (deviation doubles s claim)
                    (tolerance_now doubles s (age_of s now)))))

  -- The counts of `y` are those of `x`, and one more of each kind that is named.
  abbrev pub Counts :
      Bool
      → Bool
      → Bool
      → Bool
      → Bool
      → PartStats doubles
      → RoomTicks doubles
      → PartStats doubles × RoomTicks doubles
      → Type 0
  Counts tick no_sim stale unusable beyond ps rs y =
      (y.0.ticks_observed ≡ bump64 tick ps.ticks_observed)
      × (y.0.no_sim ≡ bump64 no_sim ps.no_sim)
      × (y.1.no_sim_ticks ≡ bump64 no_sim rs.no_sim_ticks)
      × (y.1.no_sim_now ≡ bump32 no_sim rs.no_sim_now)
      × (y.0.no_sim_stale ≡ bump64 stale ps.no_sim_stale)
      × (y.1.no_sim_stale_ticks ≡ bump64 stale rs.no_sim_stale_ticks)
      × (y.0.would_use_sim ≡ bump64 unusable ps.would_use_sim)
      × (y.1.would_use_sim_ticks ≡ bump64 unusable rs.would_use_sim_ticks)
      × (y.1.would_use_sim_now ≡ bump32 unusable rs.would_use_sim_now)
      × (y.0.would_clamp ≡ bump64 beyond ps.would_clamp)
      × (y.1.would_clamp_ticks ≡ bump64 beyond rs.would_clamp_ticks)
      × (y.1.would_clamp_now ≡ bump32 beyond rs.would_clamp_now)

  count_clamp_lem :
      (dev excess : doubles.Real) (ps : PartStats doubles) (rs : RoomTicks doubles)
      → Counts false false false false
          (doubles.lt (doubles.of_int (pos 0)) excess)
          ps
          rs
          (count_clamp doubles dev excess ps rs)
  unfolding count_clamp
  count_clamp_lem dev excess ps rs =
      elim (Bool-cases (doubles.lt (doubles.of_int (pos 0)) excess)) [
        | inl h ↦ rw h (refl, refl, refl, refl, refl, refl, refl, refl, refl, refl, refl, refl)
        | inr h ↦ rw h (refl, refl, refl, refl, refl, refl, refl, refl, refl, refl, refl, refl)
      ]

  compare_claim_lem :
      (s : Sim) (age_us : ℤ) (claim : Claim doubles) (ps : PartStats doubles)
      (rs : RoomTicks doubles)
      → Counts false false false false
          (not (doubles.is_nan (deviation doubles s claim))
            && doubles.lt
                (doubles.of_int (pos 0))
                (doubles.sub (deviation doubles s claim) (tolerance_now doubles s age_us)))
          ps
          rs
          (compare_claim doubles s age_us true claim (ps, rs))
  unfolding compare_claim
  compare_claim_lem s age_us claim ps rs =
      let dev = deviation doubles s claim in
      elim (Bool-cases (doubles.is_nan (deviation doubles s claim))) [
        | inl h ↦ rw h (refl, refl, refl, refl, refl, refl, refl, refl, refl, refl, refl, refl)
        | inr h ↦ rw h (
            count_clamp_lem dev (doubles.sub dev (tolerance_now doubles s age_us))
              (record ps { dev_cm = dev }) rs)
      ]

  -- An observation counts one tick of the participant. It counts one tick without a point that can be used,
  -- for the participant and the room, exactly when there is no fresh point, and one with a stale point
  -- exactly when the point is stale; one that the simulator's point would serve exactly when it is fresh and
  -- the viewer sent no position of the speaker or none of the listener; and one that a clamp would correct
  -- exactly when the point is fresh and the claim, a number, is further from it than its tolerance. Each
  -- of these counts of the participant and of the room is otherwise as it was.
  pub observe-Counts :
      (ps : PartStats doubles) (rs : RoomTicks doubles) (sim : Option Sim) (now : ℤ)
      (has_sp has_lp : Bool) (claim : Claim doubles)
      → Counts true
          (not (is_fresh sim now))
          (is_stale sim now)
          (is_fresh sim now && (not has_sp || not has_lp))
          (is_beyond sim now has_sp claim)
          ps
          rs
          (observe doubles ps rs sim now has_sp has_lp claim)
  unfolding observe count_no_sim observe_sim count_use_sim compare_claim count_clamp
  observe-Counts ps rs none now has_sp has_lp claim =
      (refl, refl, refl, refl, refl, refl, refl, refl, refl, refl, refl, refl)
  observe-Counts ps rs (some s) now true true claim =
      elim (Bool-cases (ltb_ℤ (pos (stale_ms * 1000)) (age_of s now))) [
        | inl old ↦
            rw (old, observe)
              (refl, refl, refl, refl, refl, refl, refl, refl, refl, refl, refl, refl)
        | inr fresh ↦ rw fresh (compare_claim_lem s (age_of s now) claim _ rs)
      ]
  observe-Counts ps rs (some s) now true false claim =
      elim (Bool-cases (ltb_ℤ (pos (stale_ms * 1000)) (age_of s now))) [
        | inl old ↦
            rw (old, observe)
              (refl, refl, refl, refl, refl, refl, refl, refl, refl, refl, refl, refl)
        | inr fresh ↦ rw fresh (compare_claim_lem s (age_of s now) claim _ _)
      ]
  observe-Counts ps rs (some s) now false has_lp claim =
      elim (Bool-cases (ltb_ℤ (pos (stale_ms * 1000)) (age_of s now))) [
        | inl old ↦
            rw (old, observe)
              (refl, refl, refl, refl, refl, refl, refl, refl, refl, refl, refl, refl)
        | inr fresh ↦
            rw fresh (refl, refl, refl, refl, refl, refl, refl, refl, refl, refl, refl, refl)
      ]
