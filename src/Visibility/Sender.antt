-- ===== src/Visibility/Sender.antt =====
-- The standing of a fail-closed room's sessions at the sender, `janus_slvoice_vis_transitions_locked` of
-- src/janus_slvoice.c.
use legion_voice_mixer.Prelude.{
  ℕ, suc, ◌≡◌, refl, sym, ◌∙◌, ap, ap₂, Bool, false, not, ◌&&◌, List, [], ◌∷◌, ◌++◌, Option, none,
  some, CString, str_eq, ◌==◌, map, arith, if◌then◌else◌, Bool-cases, inl, inr,
}
use legion_voice_mixer.Prelude.Int.{ℤ}
use legion_voice_mixer.Swap.{any}
use legion_voice_mixer.Glib.{StrSet, StrMap}
use legion_voice_mixer.Columns.{Column}
use legion_voice_mixer.Visibility.{Settings, Told, told_presence, VisRecord, Member, Room, vis_ok}
use legion_voice_mixer.Visibility.Join.{roster_excludes}

module _ (sets : StrSet) where
  -- A session with its standing at the last pass.
  pub record Watched : Type 0 where
    pub member : Member sets
    pub vis_ok_last : Bool

  -- The same with its standing now.
  pub record Judged : Type 0 where
    pub watched : Watched
    pub ok : Bool

  abbrev pub changed_standing : Judged → Bool
  changed_standing p = if p.ok then not p.watched.vis_ok_last else p.watched.vis_ok_last

  abbrev pub is_flipped : Judged → Judged → Bool
  is_flipped a b =
      if a.watched.vis_ok_last && b.watched.vis_ok_last then not (a.ok && b.ok) else a.ok && b.ok

  -- What the listener `a` is told of `b`.
  unfoldable pub tell_of : Judged → Judged → Option CString → Option CString → List Told
  unfolding roster_excludes
  tell_of a b none db = []
  tell_of a b (some da) none = []
  tell_of a b (some da) (some db) =
      if not (str_eq da db)
        && (is_flipped a b && not (roster_excludes sets a.watched.member.excluded (some db)))
      then told_presence a.watched.member.user_id db (a.ok && b.ok) ∷ []
      else []

  -- The inner loop, for the listener at place `i`, from place `j` on.
  unfoldable pub tell_row : ℕ → Judged → ℕ → List Judged → List Told
  unfolding tell_of
  tell_row i a j [] = []
  tell_row i a j (b ∷ bs) =
      (if i == j then [] else tell_of a b a.watched.member.display b.watched.member.display)
      ++ tell_row i a (suc j) bs

  unfoldable pub tell_all : ℕ → List Judged → List Judged → List Told
  unfolding tell_row
  tell_all i [] all = []
  tell_all i (a ∷ rest) all = tell_row i a 0 all ++ tell_all (suc i) rest all

  abbrev pub settle : Judged → Watched
  settle p = record p.watched { vis_ok_last = p.ok }

  abbrev pub hidden_of : Judged → Option CString → Column
  hidden_of p none = []
  hidden_of p (some d) = if p.ok then [] else d ∷ []

  -- The displays that are not in row 4.
  abbrev pub hidden : List Judged → Column
  hidden [] = []
  hidden (p ∷ ps) = hidden_of p p.watched.member.display ++ hidden ps

  pub record Pass : Type 0 where
    pub sessions : List Watched
    pub told : List Told
    pub hidden : Column

  -- The pass over sessions whose standing is judged.
  unfoldable pub pass_judged : List Judged → Pass
  unfolding tell_all
  pass_judged ps =
      if any changed_standing ps
      then record { sessions = map settle ps; told = tell_all 0 ps ps; hidden = hidden ps }
      else record { sessions = map (λ p. p.watched) ps; told = []; hidden = hidden ps }

module _ (sets : StrSet) (maps : StrMap (VisRecord sets)) (settings : Settings) where
  abbrev pub judge : Room sets maps → ℤ → Watched sets → Judged sets
  judge room now w = record {
    watched = w;
    ok = vis_ok sets maps settings room w.member.display now;
  }

  -- `janus_slvoice_vis_transitions_locked`
  unfoldable pub vis_transitions : Room sets maps → ℤ → List (Watched sets) → Pass sets
  unfolding vis_ok pass_judged
  vis_transitions room now ws = pass_judged sets (map (judge room now) ws)

  -- Every session of the pass stands as the room's records say.
  abbrev pub standing : Room sets maps → ℤ → Watched sets → Bool
  standing room now w = vis_ok sets maps settings room w.member.display now

  settled_all :
      (room : Room sets maps) (now : ℤ) (ws : List (Watched sets))
      → any (changed_standing sets) (map (judge room now) ws) ≡ false
      → map (λ w. w.vis_ok_last) ws ≡ map (standing room now) ws
  settled_all room now [] h = refl
  settled_all room now (w ∷ ws) h =
      ap₂ ◌∷◌ (ground (arith, h)) (settled_all room now ws (ground (arith, h)))

  pass_sessions :
      (room : Room sets maps) (now : ℤ) (ws : List (Watched sets))
      → map (λ w. w.vis_ok_last) (map (settle sets) (map (judge room now) ws))
        ≡ map (standing room now) ws
  pass_sessions room now [] = refl
  pass_sessions room now (w ∷ ws) = ap (◌∷◌ (standing room now w)) (pass_sessions room now ws)

  standing-settle :
      (room : Room sets maps) (now : ℤ) (ws : List (Watched sets))
      → map (standing room now) (map (settle sets) (map (judge room now) ws))
        ≡ map (standing room now) ws
  standing-settle room now [] = refl
  standing-settle room now (w ∷ ws) = ap (◌∷◌ (standing room now w)) (standing-settle room now ws)

  watched-judge :
      (room : Room sets maps) (now : ℤ) (ws : List (Watched sets))
      → map (λ (p : Judged sets). p.watched) (map (judge room now) ws) ≡ ws
  watched-judge room now [] = refl
  watched-judge room now (w ∷ ws) = ap (◌∷◌ w) (watched-judge room now ws)

  quiet :
      (room : Room sets maps) (now : ℤ) (ws : List (Watched sets))
      → map (λ (w : Watched sets). w.vis_ok_last) ws ≡ map (standing room now) ws
      → any (changed_standing sets) (map (judge room now) ws) ≡ false
  quiet room now [] h = refl
  quiet room now (w ∷ ws) h =
      let head : w.vis_ok_last ≡ standing room now w = cc in
      let tail : map (λ (w : Watched sets). w.vis_ok_last) ws ≡ map (standing room now) ws = cc in
      ground (arith, head, quiet room now ws tail)

  -- The standings after a pass, and what a second one tells.
  pub vis_transitions_quiet :
      (room : Room sets maps) (now : ℤ) (ws : List (Watched sets))
      → (map (λ (w : Watched sets). w.vis_ok_last) (vis_transitions room now ws).sessions
          ≡ map (standing room now) ws)
        × ((vis_transitions room now (vis_transitions room now ws).sessions).told ≡ [])
  unfolding vis_transitions pass_judged
  vis_transitions_quiet room now ws =
      elim (Bool-cases (any (changed_standing sets) (map (judge room now) ws))) [
        | inl changed ↦
            let after = map (settle sets) (map (judge room now) ws) in
            let none_changed =
              quiet room now after
                (pass_sessions room now ws ∙ sym (standing-settle room now ws)) in
            rw changed (pass_sessions room now ws, rw none_changed refl)
        | inr same ↦
            let told_last = settled_all room now ws same in
            rw same (rw (watched-judge room now ws) (told_last, rw same refl))
      ]
