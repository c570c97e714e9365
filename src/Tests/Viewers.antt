-- ===== src/Tests/Viewers.antt =====
-- Messages of viewers, and what a listener keeps of single sources.
use legion_voice_mixer.Prelude.{
  ℕ, ◌≡◌, ◌≤◌, ◌||◌, refl, true, false, List, [], ◌∷◌, none, some, CString, codes, str_eq, length,
  ltb, arith, if◌then◌else◌,
}
use legion_voice_mixer.Glib.{StrMap, is_some}
use legion_voice_mixer.Sldata.{max_peers, no_fields, PeerAdj, SlData, zeroed}
use legion_voice_mixer.Sldata.Peers.{adjust, same_target}
use legion_voice_mixer.Sldata.Adjusted.{find, or_fresh, adjust_lem}
use legion_voice_mixer.Sldata.Merge.{Merged, merge_all, merge_all-last_of}
use legion_voice_mixer.Listener.Dots.{Viewer, dot_batch}
use legion_voice_mixer.Listener.Seen.{
  is_left_out, is_dark, dark_dot, seen_dots, dot_batch-seen_dots,
}
use legion_voice_mixer.Doubles.{Doubles}
use legion_voice_mixer.Columns.{uuid_copy}
use legion_voice_mixer.Listener.Cull.{distance_cull, slot_of, new_slot}
use legion_voice_mixer.Listener.Latch.{cull, culls, distance_cull_latched}
use legion_voice_mixer.Tests.Tables.{list_sets, list_maps}
use legion_voice_mixer.Tests.Positions.{whole}

abbrev muted : PeerAdj whole → PeerAdj whole
muted p = record p { has_mute = true; muted = true }

abbrev table : List (PeerAdj whole)
table =
    record { uuid = codes "a"; has_mute = false; muted = false; has_gain = true; gain = 110 } ∷ []

adjust_lem_example :
    (is_some (adjust whole (codes "b") muted table)
      ≡ (is_some (find whole (codes "b") table) || ltb 1 max_peers))
    × ((ps' : List (PeerAdj whole))
        → adjust whole (codes "b") muted table ≡ some ps'
        → (length ps' ≤ max_peers)
          × ((v : CString)
              → find whole v ps' ≡ (
                  if same_target (codes "b") v
                  then some (muted (or_fresh whole (codes "b") (find whole (codes "b") table)))
                  else find whole v table)))
adjust_lem_example = adjust_lem whole (codes "b") muted (λ p. refl) table (omega arith)

abbrev session : Merged whole
session = record { data_of = zeroed whole; fields = no_fields }

abbrev here_now : SlData whole
here_now = record (zeroed whole) {
  fields_seen = record no_fields { sp = true };
  sp = record { x = 1; y = 2; z = 3 };
}

abbrev louder : SlData whole
louder = record (zeroed whole) { fields_seen = record no_fields { ug = true }; ug = 5 }

abbrev messages : List (SlData whole)
messages = here_now ∷ louder ∷ []

merge_all-last_of_example :
    ((merge_all whole session messages).data_of.sp ≡ here_now.sp)
    × ((merge_all whole session messages).data_of.sh ≡ session.data_of.sh)
    × ((merge_all whole session messages).data_of.lp ≡ session.data_of.lp)
    × ((merge_all whole session messages).data_of.lh ≡ session.data_of.lh)
    × ((merge_all whole session messages).data_of.ug ≡ 5)
    × ((merge_all whole session messages).data_of.m ≡ false)
    × ((merge_all whole session messages).data_of.echo ≡ false)
    × ((merge_all whole session messages).fields.sp ≡ true)
    × ((merge_all whole session messages).fields.lp ≡ false)
    × ((merge_all whole session messages).fields.j ≡ false)
    × ((merge_all whole session messages).fields.l ≡ false)
    × ((merge_all whole session messages).fields.sh ≡ false)
    × ((merge_all whole session messages).fields.lh ≡ false)
    × ((merge_all whole session messages).fields.m ≡ false)
    × ((merge_all whole session messages).fields.ug ≡ true)
    × ((merge_all whole session messages).fields.echo ≡ false)
    × ((merge_all whole session messages).data_of.peers ≡ [])
merge_all-last_of_example = merge_all-last_of whole session messages

abbrev dots : StrMap ℕ
dots = list_maps ℕ

abbrev batch : dots.Map
batch = (codes "a", 7) ∷ (codes "b", 8) ∷ (codes "c", 9) ∷ []

abbrev viewer : Viewer whole list_sets
viewer = record {
  display = some (codes "a");
  excluded = codes "b" ∷ [];
  mod_muted = codes "c" ∷ [];
  peer_ctl = [];
  cull_hyst = record { uuid = codes "c"; culled = true; seen_tick = 4 } ∷ [];
}

dot_batch-seen_dots_example :
    dots.lookup
      (seen_dots whole list_sets dots 4 viewer
        (some 0)
        batch
        (codes "c")
        (dot_batch whole list_sets dots true 4 viewer (some 0) true [] batch))
      (codes "c")
    ≡ (if is_left_out whole list_sets dots viewer true [] (codes "c")
        then none
        else if is_dark whole list_sets dots 4 viewer (codes "c")
        then dark_dot dots (some 0) (some 9)
        else some 9)
unfolding str_eq
dot_batch-seen_dots_example =
    dot_batch-seen_dots whole list_sets dots 4 viewer (some 0) batch (codes "c") true []

-- The same with their order.
abbrev ordered : Doubles
ordered = record whole { lt = ltb }

abbrev calls : List (CString × ℕ × ℕ)
calls = (codes "a", 5, 1) ∷ (codes "b", 1, 1) ∷ []

-- A source that was culled at 5 is not back at 2, and would be at 1.
distance_cull_latched_example :
    (cull ordered 3 2 (culls ordered 3 2 calls []) (codes "a") 2 2).0 ≡ true
unfolding distance_cull slot_of uuid_copy new_slot str_eq
distance_cull_latched_example =
    distance_cull_latched ordered 3 2 calls [] (codes "a") 2 2
      (omega arith, refl, (omega arith, refl, tt)) (omega arith) refl
