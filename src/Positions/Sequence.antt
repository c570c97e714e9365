-- ===== src/Positions/Sequence.antt =====
-- Requests of positions in their order: which are accepted, and what a room holds after them.
use legion_voice_mixer.Prelude.{
  true_absurd, choice, All, ℕ, ◌≡◌, refl, sym, ap, ◌∙◌, subst, Bool, true, false, not, ◌&&◌, ◌||◌,
  ◌==◌, List, [], ◌∷◌, none, CString, arith, if◌then◌else◌, Bool-cases, Option-cases, inl, inr,
}
use mathlib.Core.Path.{fun_ext}
use legion_voice_mixer.Positions.Store.{cleared}
use legion_voice_mixer.Prelude.Int.{ℤ, ◌≤ℤ◌}
use legion_voice_mixer.Glib.{is_some}
use legion_voice_mixer.Positions.{PosBatch}
use legion_voice_mixer.Positions.Invariant.{IsValid, cleared-IsValid}
use legion_voice_mixer.Positions.Lookup.{point}
use legion_voice_mixer.Positions.Applied.{
  Known, learn_all, start, point-cleared, store_apply-learn_all,
}
use legion_voice_mixer.Positions.Handle.{
  PosRoom, Refusal, stale_epoch, stale_seq, epoch_of, refusal, count_refusal, base_store, accept,
  handle_parsed,
}

-- What a request is applied to.
abbrev pub base : PosBatch → PosRoom → Known
base b room = start (base_store b room) b

-- Does a request start from nothing: is it full, or of another instance than the last one?
abbrev pub forgets : PosBatch → PosRoom → Bool
forgets b room = b.full || (room.pos_stats.have_batch && not (epoch_of b == room.pos_stats.epoch))

-- What the room knew, as far as a request builds on it.
abbrev pub known_before : PosBatch → PosRoom → Known
known_before b room =
    if forgets b room
    then record { find = λ u. none; names = 0; stored = 0; dropped = 0 }
    else record {
      find = point room.pos_store;
      names = room.pos_store.count;
      stored = 0;
      dropped = 0;
    }

base_lem : (b : PosBatch) (room : PosRoom) → base b room ≡ known_before b room
unfolding base_store cleared
base_lem b room = elim (Bool-cases b.full) [
  | inl f ↦ rw f refl
  | inr p ↦
      elim (Bool-cases (room.pos_stats.have_batch && not (epoch_of b == room.pos_stats.epoch))) [
        | inl other ↦
            rw (p, other, base_store)
              (ap (λ f. record { find = f; names = 0; stored = 0; dropped = 0 })
                (fun_ext point-cleared))
        | inr same ↦ rw (p, same, base_store) refl
      ]
]

base_store-IsValid :
    (b : PosBatch) (room : PosRoom) → IsValid room.pos_store → IsValid (base_store b room)
unfolding base_store
base_store-IsValid b room v = choice IsValid _ _ _ cleared-IsValid v

accept_lem :
    (b : PosBatch) (now : ℤ) (room : PosRoom) (u : CString)
    → IsValid room.pos_store
    → IsValid (accept b now room).pos_store
      × (point (accept b now room).pos_store u ≡ (learn_all b.entries now (base b room)).find u)
unfolding accept
accept_lem b now room u v =
    let (w, k) = store_apply-learn_all (base_store b room) b now (base_store-IsValid b room v) in
    (w, ap (λ (x : Known). x.find u) k)

module _ (stale_us : ℤ) where
  -- A sequence of requests, each with its time of arrival.
  abbrev pub handle_all : List (PosBatch × ℤ) → PosRoom → PosRoom
  handle_all [] room = room
  handle_all ((b, now) ∷ rs) room = handle_all rs (handle_parsed stale_us b now room).1

  abbrev pub is_accepted : PosBatch → ℤ → PosRoom → Bool
  is_accepted b now room = not (is_some (handle_parsed stale_us b now room).0)

  accepted_lem :
      (b : PosBatch) (now : ℤ) (room : PosRoom)
      → is_accepted b now room ≡ true
      → (refusal stale_us b now room ≡ none)
        × ((handle_parsed stale_us b now room).1 ≡ accept b now room)
  unfolding handle_parsed
  accepted_lem b now room h = elim (Option-cases (refusal stale_us b now room)) [
    | inl e ↦ (e, rw (e, handle_parsed) refl)
    | inr (why, e) ↦ absurd (true_absurd (sym h ∙ rw (e, handle_parsed) refl))
  ]

  refused_lem :
      (b : PosBatch) (now : ℤ) (room : PosRoom)
      → is_accepted b now room ≡ false
      → (why : Refusal) × ((handle_parsed stale_us b now room).1
          ≡ record room { pos_stats = count_refusal why room.pos_stats })
  unfolding handle_parsed
  refused_lem b now room h = elim (Option-cases (refusal stale_us b now room)) [
    | inl e ↦ absurd (true_absurd (rw (e, handle_parsed) refl ∙ h))
    | inr (why, e) ↦ (why, rw (e, handle_parsed) refl)
  ]

  -- In a room whose store is sound, an accepted request leaves the points that its entries say, in their
  -- order, over what the room knew, or over nothing if it is full or comes from another instance than the
  -- last one. A refused one leaves every point. The store stays sound.
  pub handle_parsed-points :
      (b : PosBatch) (now : ℤ) (room : PosRoom) (u : CString)
      → IsValid room.pos_store
      → IsValid (handle_parsed stale_us b now room).1.pos_store
        × (point (handle_parsed stale_us b now room).1.pos_store u ≡ (
            if is_accepted b now room
            then (learn_all b.entries now (known_before b room)).find u
            else point room.pos_store u))
  handle_parsed-points b now room u v = elim (Bool-cases (is_accepted b now room)) [
    | inl h ↦
        let (none_refused, e) = accepted_lem b now room h in
        let (w, k) = accept_lem b now room u v in
        rw (h, e) (w, k ∙ ap (λ (x : Known). (learn_all b.entries now x).find u) (base_lem b room))
    | inr h ↦ let (why, e) = refused_lem b now room h in rw (h, e) (v, refl)
  ]

  -- The room's last request is of instance `e`, and not before number `s`.
  abbrev IsPast : ℕ → ℤ → PosRoom → Type 0
  IsPast e s room =
      (room.pos_stats.have_batch ≡ true)
      × (room.pos_stats.epoch ≡ e)
      × (s ≤ℤ room.pos_stats.last_seq)

  late_absurd :
      (b : PosBatch) (now : ℤ) (room : PosRoom) (s : ℤ)
      → refusal stale_us b now room ≡ none
      → IsPast (epoch_of b) s room
      → b.seq ≤ℤ s
      → ⊥
  unfolding refusal
  late_absurd b now room s e (have, same, past) l = ground arith

  late_refused :
      (b : PosBatch) (now : ℤ) (room : PosRoom) (s : ℤ)
      → IsPast (epoch_of b) s room
      → b.seq ≤ℤ s
      → is_accepted b now room ≡ false
  late_refused b now room s p l = elim (Bool-cases (is_accepted b now room)) [
    | inl h ↦ absurd (late_absurd b now room s (accepted_lem b now room h).0 p l)
    | inr h ↦ h
  ]

  accept-IsPast :
      (b : PosBatch) (now : ℤ) (room : PosRoom) (s : ℤ)
      → refusal stale_us b now room ≡ none
      → IsPast (epoch_of b) s room
      → IsPast (epoch_of b) s (accept b now room)
  unfolding accept refusal
  accept-IsPast b now room s e (have, same, past) = (refl, refl, ground arith)

  refusal-IsPast :
      (b : PosBatch) (room : PosRoom) (why : Refusal) (s : ℤ)
      → IsPast (epoch_of b) s room
      → IsPast (epoch_of b) s (record room { pos_stats = count_refusal why room.pos_stats })
  refusal-IsPast b room stale_epoch s p = p
  refusal-IsPast b room stale_seq s p = p

  handle_parsed-IsPast :
      (b : PosBatch) (now : ℤ) (room : PosRoom) (s : ℤ)
      → IsPast (epoch_of b) s room
      → IsPast (epoch_of b) s (handle_parsed stale_us b now room).1
  handle_parsed-IsPast b now room s p = elim (Bool-cases (is_accepted b now room)) [
    | inl h ↦
        rw ((accepted_lem b now room h).1)
          (accept-IsPast b now room s (accepted_lem b now room h).0 p)
    | inr h ↦ let (why, e) = refused_lem b now room h in rw e (refusal-IsPast b room why s p)
  ]

  abbrev Instance : ℕ → List (PosBatch × ℤ) → Type 0
  Instance e = All (λ (r : PosBatch × ℤ). epoch_of r.0 ≡ e)

  handle_all-IsPast :
      (rs : List (PosBatch × ℤ)) (room : PosRoom) (e : ℕ) (s : ℤ)
      → Instance e rs
      → IsPast e s room
      → IsPast e s (handle_all rs room)
  handle_all-IsPast [] room e s i p = p
  handle_all-IsPast ((b, now) ∷ rs) room e s (same, i) p =
      handle_all-IsPast rs (handle_parsed stale_us b now room).1 e s i (
        subst (λ x. IsPast x s (handle_parsed stale_us b now room).1) same
          (handle_parsed-IsPast b now room s (subst (λ x. IsPast x s room) (sym same) p)))

  accept_begins :
      (b : PosBatch) (now : ℤ) (room : PosRoom) → IsPast (epoch_of b) b.seq (accept b now room)
  unfolding accept
  accept_begins b now room = (refl, refl, omega arith)

  -- Once a request is accepted, no request of the same instance with the same or a smaller number is
  -- accepted again, whatever requests of that instance arrive between them.
  pub handle_parsed_once :
      (b later : PosBatch) (now then_us : ℤ) (rs : List (PosBatch × ℤ)) (room : PosRoom)
      → is_accepted b now room ≡ true
      → Instance (epoch_of b) rs
      → epoch_of later ≡ epoch_of b
      → later.seq ≤ℤ b.seq
      → is_accepted later then_us (handle_all rs (handle_parsed stale_us b now room).1) ≡ false
  handle_parsed_once b later now then_us rs room h i same l =
      let after = (handle_parsed stale_us b now room).1 in
      let first : IsPast (epoch_of b) b.seq after =
        rw ((accepted_lem b now room h).1) (accept_begins b now room) in
      late_refused later then_us (handle_all rs after) b.seq
        (subst (λ x. IsPast x b.seq (handle_all rs after)) (sym same)
          (handle_all-IsPast rs after (epoch_of b) b.seq i first))
        l
