-- ===== src/Listener/Control.antt =====
-- The merge of a message's adjustments into a listener's own table,
-- `janus_slvoice_apply_peer_ctl_locked` of src/janus_slvoice.c.
use legion_voice_mixer.Prelude.{
  ℕ, ◌+◌, true, false, List, [], ◌∷◌, Option, none, some, CString, str_eq, ltb, if◌then◌else◌,
}
use legion_voice_mixer.Prelude.Int.{pos}
use legion_voice_mixer.Columns.{uuid_copy}
use legion_voice_mixer.Doubles.{Doubles}
use legion_voice_mixer.Sldata.{max_peers, PeerAdj, zero}
use legion_voice_mixer.Listener.{PeerCtl}
use legion_voice_mixer.Positions.Observe.{inc64}

module _ (doubles : Doubles) where
  -- The gain of a viewer's number, volume * 220, within 0 and 4. `to_float` is the cast.
  unfoldable pub clamped_gain : (doubles.Real → doubles.Real) → doubles.Real → doubles.Real
  clamped_gain to_float raw =
      let g = doubles.div raw (doubles.of_int (pos 220)) in
      to_float (
        if doubles.lt g (doubles.of_int (pos 0))
        then doubles.of_int (pos 0)
        else if doubles.lt (doubles.of_int (pos 4)) g
        then doubles.of_int (pos 4)
        else g)

  abbrev pub new_ctl : CString → PeerCtl doubles
  new_ctl uuid = record {
    uuid = uuid_copy uuid;
    muted = false;
    has_gain = false;
    gain = zero doubles;
  }

  -- The writes to an entry: only what the message carries of the source.
  unfoldable pub adjust_ctl :
      (doubles.Real → doubles.Real) → PeerAdj doubles → PeerCtl doubles → PeerCtl doubles
  unfolding clamped_gain
  adjust_ctl to_float a dst = record dst {
    muted = if a.has_mute then a.muted else dst.muted;
    has_gain = if a.has_gain then true else dst.has_gain;
    gain = if a.has_gain then clamped_gain to_float a.gain else dst.gain;
  }

  -- One adjustment, after `n` entries are passed; `none` when the table is full.
  unfoldable pub apply_one :
      (doubles.Real → doubles.Real)
      → ℕ
      → PeerAdj doubles
      → List (PeerCtl doubles)
      → Option (List (PeerCtl doubles))
  unfolding adjust_ctl uuid_copy
  apply_one to_float n a [] =
      if ltb n max_peers then some (adjust_ctl to_float a (new_ctl a.uuid) ∷ []) else none
  apply_one to_float n a (p ∷ ps) =
      let rest = apply_one to_float (n + 1) a ps in
      if str_eq p.uuid a.uuid
      then some (adjust_ctl to_float a p ∷ ps)
      else elim rest [ none ↦ none | some qs ↦ some (p ∷ qs) ]

  -- The table and the count of dropped adjustments.
  pub record Controls : Type 0 where
    pub peer_ctl : List (PeerCtl doubles)
    pub peer_ctl_full_drops : ℕ

  unfoldable pub apply_step : (doubles.Real → doubles.Real) → PeerAdj doubles → Controls → Controls
  unfolding apply_one
  apply_step to_float a c = elim (apply_one to_float 0 a c.peer_ctl) [
    | none ↦ record c { peer_ctl_full_drops = inc64 c.peer_ctl_full_drops }
    | some ps ↦ record c { peer_ctl = ps }
  ]

  -- `janus_slvoice_apply_peer_ctl_locked`
  unfoldable pub apply_peer_ctl :
      (doubles.Real → doubles.Real) → List (PeerAdj doubles) → Controls → Controls
  unfolding apply_step
  apply_peer_ctl to_float [] c = c
  apply_peer_ctl to_float (a ∷ adjs) c = apply_peer_ctl to_float adjs (apply_step to_float a c)
