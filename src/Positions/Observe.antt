-- ===== src/Positions/Observe.antt =====
-- The comparison of a viewer's claim with the sim's point, which counts and changes nothing else:
-- `slv_pos_tolerance_now`, `slv_pos_room_tick_begin` and `slv_pos_observe` of src/possync.c.
use legion_voice_mixer.Prelude.{
  ℕ, ◌+◌, ◌*◌, ◌/◌, ◌%◌, ◌^◌, Bool, true, false, not, ◌||◌, Option, none, some, [], if◌then◌else◌,
}
use legion_voice_mixer.Prelude.Int.{ℤ, pos, negsuc, ◌-ℤ◌, ltb_ℤ, pos_part}
use legion_voice_mixer.Doubles.{Doubles}
use legion_voice_mixer.Positions.{stale_ms, PosEntry}
use legion_voice_mixer.Positions.Store.{Sim}
use legion_voice_mixer.Positions.Handle.{add64}

-- `slv_pos_sim_state`
pub data SimState : Type 0 where
  sim_none sim_stale sim_fresh : SimState

abbrev pub no_entry : PosEntry
no_entry = record { uuid = []; x = pos 0; y = pos 0; z = pos 0; speed_cms = pos 0; tol_cm = pos 0 }

-- The age of a point, at least 0.
unfoldable pub age_of : Sim → ℤ → ℤ
unfolding ◌-ℤ◌
age_of sim now_us =
    let age_us = now_us -ℤ sim.recv_us in if ltb_ℤ age_us (pos 0) then pos 0 else age_us

-- Counters of 32 bits.
abbrev pub inc32 : ℕ → ℕ
inc32 n = (n + 1) % 2 ^ 32

abbrev pub inc64 : ℕ → ℕ
inc64 n = add64 n 1

module _ (doubles : Doubles) where
  -- `slv_pos_part_stats`
  pub record PartStats : Type 0 where
    pub state : SimState
    pub age_ms : ℤ
    pub sim : PosEntry
    pub dev_cm : doubles.Real
    pub ticks_observed : ℕ
    pub would_clamp : ℕ
    pub max_dev_cm : doubles.Real
    pub max_excess_cm : doubles.Real
    pub would_use_sim : ℕ
    pub no_sim : ℕ
    pub no_sim_stale : ℕ

  -- The totals and gauges of `slv_pos_room_stats`.
  pub record RoomTicks : Type 0 where
    pub would_clamp_ticks : ℕ
    pub would_use_sim_ticks : ℕ
    pub no_sim_ticks : ℕ
    pub no_sim_stale_ticks : ℕ
    pub max_dev_cm : doubles.Real
    pub max_excess_cm : doubles.Real
    pub would_clamp_now : ℕ
    pub would_use_sim_now : ℕ
    pub no_sim_now : ℕ

  -- `claim_sp`
  abbrev pub Claim : Type 0
  Claim = doubles.Real × doubles.Real × doubles.Real

  -- `slv_pos_room_tick_begin`
  unfoldable pub tick_begin : RoomTicks → RoomTicks
  tick_begin rs = record rs { would_clamp_now = 0; would_use_sim_now = 0; no_sim_now = 0 }

  -- `slv_pos_tolerance_now`
  unfoldable pub tolerance_now : Sim → ℤ → doubles.Real
  tolerance_now sim age_us =
      let age = if ltb_ℤ age_us (pos 0) then pos 0 else age_us in
      doubles.add (doubles.of_int sim.e.tol_cm) (
        doubles.mul (doubles.of_int sim.e.speed_cms)
          (doubles.div (doubles.of_int age) (doubles.of_int (pos 1000000))))

  -- |claim - sim|
  unfoldable pub deviation : Sim → Claim → doubles.Real
  deviation sim (cx, cy, cz) =
      let dx = doubles.sub cx (doubles.of_int sim.e.x) in
      let dy = doubles.sub cy (doubles.of_int sim.e.y) in
      let dz = doubles.sub cz (doubles.of_int sim.e.z) in
      doubles.sqrt
        (doubles.add (doubles.add (doubles.mul dx dx) (doubles.mul dy dy)) (doubles.mul dz dz))

  abbrev pub larger : doubles.Real → doubles.Real → doubles.Real
  larger new old = if doubles.lt old new then new else old

  -- No point, or a stale one: what is counted for both.
  unfoldable pub count_no_sim : Bool → PartStats → RoomTicks → PartStats × RoomTicks
  count_no_sim stale ps rs = (
    record ps {
      state = if stale then sim_stale else sim_none;
      no_sim = inc64 ps.no_sim;
      no_sim_stale = if stale then inc64 ps.no_sim_stale else ps.no_sim_stale;
    },
    record rs {
      no_sim_ticks = inc64 rs.no_sim_ticks;
      no_sim_stale_ticks = if stale then inc64 rs.no_sim_stale_ticks else rs.no_sim_stale_ticks;
      no_sim_now = inc32 rs.no_sim_now;
    },
  )

  -- A fresh point where the viewer has no usable position.
  unfoldable pub count_use_sim : Bool → PartStats → RoomTicks → PartStats × RoomTicks
  count_use_sim unusable ps rs =
      if unusable
      then (
        record ps { would_use_sim = inc64 ps.would_use_sim },
        record rs {
          would_use_sim_ticks = inc64 rs.would_use_sim_ticks;
          would_use_sim_now = inc32 rs.would_use_sim_now;
        },
      )
      else (ps, rs)

  -- A claim beyond the tolerance.
  unfoldable pub count_clamp :
      doubles.Real → doubles.Real → PartStats → RoomTicks → PartStats × RoomTicks
  count_clamp dev excess ps rs =
      if doubles.lt (doubles.of_int (pos 0)) excess
      then (
        record ps {
          would_clamp = inc64 ps.would_clamp;
          max_dev_cm = larger dev ps.max_dev_cm;
          max_excess_cm = larger excess ps.max_excess_cm;
        },
        record rs {
          would_clamp_ticks = inc64 rs.would_clamp_ticks;
          would_clamp_now = inc32 rs.would_clamp_now;
          max_dev_cm = larger dev rs.max_dev_cm;
          max_excess_cm = larger excess rs.max_excess_cm;
        },
      )
      else (ps, rs)

  -- The comparison of the claim, when there is one and it is a number.
  unfoldable pub compare_claim :
      Sim → ℤ → Bool → Claim → PartStats × RoomTicks → PartStats × RoomTicks
  unfolding deviation tolerance_now count_clamp
  compare_claim sim age_us has_sp claim (ps, rs) =
      let dev = deviation sim claim in
      if not has_sp || doubles.is_nan dev
      then (ps, rs)
      else count_clamp dev (doubles.sub dev (tolerance_now sim age_us)) (record ps { dev_cm = dev })
          rs

  -- `slv_pos_observe` at a point that is not NULL.
  unfoldable pub observe_sim :
      PartStats → RoomTicks → Sim → ℤ → Bool → Bool → Claim → PartStats × RoomTicks
  unfolding count_no_sim count_use_sim compare_claim
  observe_sim ps rs sim age_us has_sp has_lp claim =
      let seen = record ps { sim = sim.e; age_ms = pos (pos_part age_us / 1000) } in
      if ltb_ℤ (pos (stale_ms * 1000)) age_us
      then count_no_sim true seen rs
      else compare_claim sim age_us has_sp claim
          (count_use_sim (not has_sp || not has_lp) (record seen { state = sim_fresh }) rs)

  -- `slv_pos_observe`
  unfoldable pub observe :
      PartStats → RoomTicks → Option Sim → ℤ → Bool → Bool → Claim → PartStats × RoomTicks
  unfolding count_no_sim observe_sim age_of
  observe ps rs sim now_us has_sp has_lp claim =
      let counted = record ps {
        ticks_observed = inc64 ps.ticks_observed;
        dev_cm = doubles.of_int (negsuc 0);
      } in
      elim sim [
        | none ↦ count_no_sim false (record counted { age_ms = negsuc 0; sim = no_entry }) rs
        | some s ↦ observe_sim counted rs s (age_of s now_us) has_sp has_lp claim
      ]
