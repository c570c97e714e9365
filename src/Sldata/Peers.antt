-- ===== src/Sldata/Peers.antt =====
-- `slv_peer_find_or_add` of src/sldata.c: the entry of a target, found by the first 39 bytes of its name,
-- or appended while the table has room.
use legion_voice_mixer.Prelude.{
  ℕ, ◌+◌, Bool, false, List, [], ◌∷◌, Option, none, some, CString, str_eq, take, ltb, if◌then◌else◌,
}
use legion_voice_mixer.Columns.{uuid_copy}
use legion_voice_mixer.Doubles.{Doubles}
use legion_voice_mixer.Sldata.{max_peers, PeerAdj, zero}

-- `strncmp(a, b, SLV_UUID_LEN - 1) == 0`
unfoldable pub same_target : CString → CString → Bool
same_target a b = str_eq (take 39 a) (take 39 b)

module _ (doubles : Doubles) where
  -- An entry appended to the zeroed table.
  abbrev pub fresh : CString → PeerAdj doubles
  fresh uuid = record {
    uuid = uuid_copy uuid;
    has_mute = false;
    muted = false;
    has_gain = false;
    gain = zero doubles;
  }

  -- What the caller does to the entry that it is given, after `n` entries are passed: `none` when the
  -- table is full and the name is new.
  unfoldable pub adjust_from :
      ℕ
      → CString
      → (PeerAdj doubles → PeerAdj doubles)
      → List (PeerAdj doubles)
      → Option (List (PeerAdj doubles))
  unfolding same_target uuid_copy
  adjust_from n uuid change [] = if ltb n max_peers then some (change (fresh uuid) ∷ []) else none
  adjust_from n uuid change (p ∷ peers) =
      let rest = adjust_from (n + 1) uuid change peers in
      if same_target p.uuid uuid
      then some (change p ∷ peers)
      else elim rest [ none ↦ none | some ps ↦ some (p ∷ ps) ]

  -- `slv_peer_find_or_add` and the writes to its result.
  unfoldable pub adjust :
      CString
      → (PeerAdj doubles → PeerAdj doubles)
      → List (PeerAdj doubles)
      → Option (List (PeerAdj doubles))
  unfolding adjust_from
  adjust = adjust_from 0
