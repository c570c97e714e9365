-- ===== src/Sldata/Merge.antt =====
-- `slv_sldata_merge` of src/sldata.c, and what a session holds after a sequence of messages.
use legion_voice_mixer.Prelude.{Bool, ◌||◌, ◌≡◌, refl, List, [], ◌∷◌, if◌then◌else◌}
use legion_voice_mixer.Doubles.{Doubles}
use legion_voice_mixer.Sldata.{Fields, SlData}

abbrev pub union : Fields → Fields → Fields
union a b = record {
  j = a.j || b.j;
  l = a.l || b.l;
  sp = a.sp || b.sp;
  sh = a.sh || b.sh;
  lp = a.lp || b.lp;
  lh = a.lh || b.lh;
  m = a.m || b.m;
  ug = a.ug || b.ug;
  echo = a.echo || b.echo;
}

module _ (doubles : Doubles) where
  -- The session's data and the union of the fields that it has seen.
  pub record Merged : Type 0 where
    pub data_of : SlData doubles
    pub fields : Fields

  -- `slv_sldata_merge`, none of its arguments NULL.
  unfoldable pub sldata_merge : Merged → SlData doubles → Merged
  sldata_merge dst src =
      let f = src.fields_seen in
      let d = dst.data_of in
      record {
        data_of = record d {
          sp = if f.sp then src.sp else d.sp;
          sh = if f.sh then src.sh else d.sh;
          lp = if f.lp then src.lp else d.lp;
          lh = if f.lh then src.lh else d.lh;
          m = if f.m then src.m else d.m;
          ug = if f.ug then src.ug else d.ug;
          echo = if f.echo then src.echo else d.echo;
        };
        fields = union dst.fields f;
      }

  abbrev pub merge_all : Merged → List (SlData doubles) → Merged
  merge_all dst [] = dst
  merge_all dst (m ∷ ms) = merge_all (sldata_merge dst m) ms

  -- The value of the last message that carried a field, or `old`.
  abbrev pub last_of {ℓ} :
      {A : Type ℓ} → (Fields → Bool) → (SlData doubles → A) → A → List (SlData doubles) → A
  last_of flag value old [] = old
  last_of flag value old (m ∷ ms) =
      last_of flag value (if flag m.fields_seen then value m else old) ms

  -- Some message carried a field.
  abbrev pub ever : (Fields → Bool) → Bool → List (SlData doubles) → Bool
  ever flag old [] = old
  ever flag old (m ∷ ms) = ever flag (old || flag m.fields_seen) ms

  -- After any messages, each part of a session's data is the one of the last message that carried it, and
  -- what no message carried is as it was; a field counts as seen when it was before or some message carried
  -- it. What a message says of single targets does not touch the session's data.
  pub merge_all-last_of :
      (dst : Merged) (ms : List (SlData doubles))
      → ((merge_all dst ms).data_of.sp ≡ last_of (λ f. f.sp) (λ m. m.sp) dst.data_of.sp ms)
        × ((merge_all dst ms).data_of.sh ≡ last_of (λ f. f.sh) (λ m. m.sh) dst.data_of.sh ms)
        × ((merge_all dst ms).data_of.lp ≡ last_of (λ f. f.lp) (λ m. m.lp) dst.data_of.lp ms)
        × ((merge_all dst ms).data_of.lh ≡ last_of (λ f. f.lh) (λ m. m.lh) dst.data_of.lh ms)
        × ((merge_all dst ms).data_of.ug ≡ last_of (λ f. f.ug) (λ m. m.ug) dst.data_of.ug ms)
        × ((merge_all dst ms).data_of.m ≡ last_of (λ f. f.m) (λ m. m.m) dst.data_of.m ms)
        × ((merge_all dst ms).data_of.echo
            ≡ last_of (λ f. f.echo) (λ m. m.echo) dst.data_of.echo ms)
        × ((merge_all dst ms).fields.sp ≡ ever (λ f. f.sp) dst.fields.sp ms)
        × ((merge_all dst ms).fields.lp ≡ ever (λ f. f.lp) dst.fields.lp ms)
        × ((merge_all dst ms).fields.j ≡ ever (λ f. f.j) dst.fields.j ms)
        × ((merge_all dst ms).fields.l ≡ ever (λ f. f.l) dst.fields.l ms)
        × ((merge_all dst ms).fields.sh ≡ ever (λ f. f.sh) dst.fields.sh ms)
        × ((merge_all dst ms).fields.lh ≡ ever (λ f. f.lh) dst.fields.lh ms)
        × ((merge_all dst ms).fields.m ≡ ever (λ f. f.m) dst.fields.m ms)
        × ((merge_all dst ms).fields.ug ≡ ever (λ f. f.ug) dst.fields.ug ms)
        × ((merge_all dst ms).fields.echo ≡ ever (λ f. f.echo) dst.fields.echo ms)
        × ((merge_all dst ms).data_of.peers ≡ dst.data_of.peers)
  unfolding sldata_merge
  merge_all-last_of dst [] = (
    refl, refl, refl, refl, refl, refl, refl, refl, refl, refl, refl, refl, refl, refl, refl, refl,
    refl,
  )
  merge_all-last_of dst (m ∷ ms) = merge_all-last_of (sldata_merge dst m) ms
