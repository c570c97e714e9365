-- ===== src/Visibility/Beats.antt =====
-- What a heartbeat does to the records of a room, and to the standing of its listeners.
use legion_voice_mixer.Prelude.{
  ℕ, ◌≡◌, ◌≢◌, refl, sym, ap, ◌∙◌, subst, Bool, true, false, not, ◌&&◌, ◌||◌, List, [], ◌∷◌, Option,
  none, some, CString, codes, str_eq, eq_of_str_eq, ◌==◌, ==_iff, arith, if◌then◌else◌, Bool-cases,
  Option-cases, inl, inr, choice,
}
use legion_voice_mixer.Prelude.Int.{ℤ, pos, eqb_ℤ}
use legion_voice_mixer.Swap.{any}
use legion_voice_mixer.Glib.{StrSet, StrMap, map_option}
use legion_voice_mixer.Json.{Json}
use legion_voice_mixer.Authority.{EpochVerdict, epoch_decide, vis_row}
use legion_voice_mixer.Visibility.{
  Settings, VisRecord, Room, record_row, vis_row_locked, vis_ok, stale_us,
}
use legion_voice_mixer.Visibility.Authority.{is_stale, is_equal, vis_adopt}
use legion_voice_mixer.Visibility.Heartbeat.{
  Beat, BeatReply, beat_stale_epoch, Listening, beat_record, beat_listener, beat_listeners, listed,
  listeners_of, heartbeat_listeners, BeatRoom, beat_stop, beat_live, beat_room, is_outdated, marked,
  member,
}

module _ (json : Json) (sets : StrSet) (maps : StrMap (VisRecord sets)) where
  -- What one listed generation does to a listener's own record.
  abbrev pub beat_own : ℕ → ℤ → json.Value → Option (VisRecord sets) → Option (VisRecord sets)
  beat_own auth now g none = none
  beat_own auth now g (some r) =
      if r.epoch == auth
      then if json.is_integer g && eqb_ℤ (json.integer_value g) (pos r.listener_gen)
        then some (record r { confirmed_us = now })
        else some (record r { stale = true })
      else some r

  -- The entries of a listener, in their order.
  abbrev pub own_beats :
      ℕ
      → ℤ
      → CString
      → List (CString × json.Value)
      → Option (VisRecord sets)
      → Option (VisRecord sets)
  own_beats auth now u [] o = o
  own_beats auth now u ((l, g) ∷ items) o =
      own_beats auth now u items (if str_eq l u then beat_own auth now g o else o)

  abbrev pub is_listed : CString → List (CString × json.Value) → Bool
  is_listed u = any (λ x. str_eq x.0 u)

  lookup-beat_record :
      (now : ℤ) (l u : CString) (g : json.Value) (r : VisRecord sets) (s : Listening json sets maps)
      → maps.lookup (beat_record json sets maps now l g r s).records u
        ≡ (if str_eq l u then beat_own r.epoch now g (some r) else maps.lookup s.records u)
  unfolding beat_record
  lookup-beat_record now l u g r s =
      let itself : (r.epoch == r.epoch) ≡ true = ground arith in
      elim (Bool-cases (json.is_integer g && eqb_ℤ (json.integer_value g) (pos r.listener_gen))) [
        | inl h ↦
            rw (itself, h) (maps.lookup_insert s.records l u (record r { confirmed_us = now }))
        | inr h ↦ rw (itself, h) (maps.lookup_insert s.records l u (record r { stale = true }))
      ]

  -- A record that another epoch armed, or none, stays as it is.
  lookup-kept :
      (auth : ℕ) (now : ℤ) (l u : CString) (g : json.Value) (m : maps.Map)
      → beat_own auth now g (maps.lookup m l) ≡ maps.lookup m l
      → maps.lookup m u
        ≡ (if str_eq l u then beat_own auth now g (maps.lookup m u) else maps.lookup m u)
  lookup-kept auth now l u g m h = elim (Bool-cases (str_eq l u)) [
    | inl same ↦ rw same (
        sym (
          subst (λ x. beat_own auth now g (maps.lookup m x) ≡ maps.lookup m x)
            (eq_of_str_eq l u same) h))
    | inr other ↦ rw other refl
  ]

  lookup-beat_listener :
      (auth : ℕ) (now : ℤ) (l u : CString) (g : json.Value) (s : Listening json sets maps)
      → maps.lookup (beat_listener json sets maps auth now l g s).records u ≡ (
          if str_eq l u
          then beat_own auth now g (maps.lookup s.records u)
          else maps.lookup s.records u)
  unfolding beat_listener
  lookup-beat_listener auth now l u g s = elim (Option-cases (maps.lookup s.records l)) [
    | inl n ↦ rw (n, beat_listener) (lookup-kept auth now l u g s.records (rw n refl))
    | inr (r, e) ↦ elim (Bool-cases (r.epoch == auth)) [
      | inl this ↦
          let at : r.epoch ≡ auth = (==_iff r.epoch auth).0 this in
          rw (e, beat_listener)
            (rw this (
              lookup-beat_record now l u g r s ∙ (elim (Bool-cases (str_eq l u)) [
                | inl same ↦
                    let here : maps.lookup s.records u ≡ some r =
                      subst (λ x. maps.lookup s.records x ≡ some r) (eq_of_str_eq l u same) e in
                    rw (same, here)
                      (subst (λ x. beat_own r.epoch now g (some r) ≡ beat_own x now g (some r)) at
                        refl)
                | inr other ↦ rw other refl
              ])))
      | inr old ↦
          rw (e, beat_listener) (rw old (lookup-kept auth now l u g s.records (rw e (rw old refl))))
    ]
  ]

  lookup-beat_listeners :
      (auth : ℕ) (now : ℤ) (u : CString) (items : List (CString × json.Value))
      (s : Listening json sets maps)
      → maps.lookup (beat_listeners json sets maps auth now items s).records u
        ≡ own_beats auth now u items (maps.lookup s.records u)
  unfolding beat_listeners
  lookup-beat_listeners auth now u [] s = refl
  lookup-beat_listeners auth now u ((l, g) ∷ items) s =
      lookup-beat_listeners auth now u items (beat_listener json sets maps auth now l g s)
      ∙ ap (own_beats auth now u items) (lookup-beat_listener auth now l u g s)

  contains-listed :
      (u : CString) (items : List (CString × json.Value))
      → sets.contains (listed json sets maps items) u ≡ is_listed u items
  contains-listed u [] = sets.contains_empty u
  contains-listed u ((l, g) ∷ items) =
      sets.contains_add (listed json sets maps items) l u
      ∙ ap (λ b. str_eq l u || b) (contains-listed u items)

  -- A listener that the message lists keeps its record: when the record is of the room's epoch, the
  -- generation that the message gives confirms it or, when it is another, makes it stale. Every listener
  -- that the message omits is disarmed.
  pub heartbeat_listeners-own_beats :
      (auth : ℕ) (now : ℤ) (listeners : Option json.Value) (records : maps.Map) (u : CString)
      → maps.lookup (heartbeat_listeners json sets maps auth now listeners records).records u ≡ (
          if is_listed u (listeners_of json sets maps listeners)
          then own_beats auth now u (listeners_of json sets maps listeners) (maps.lookup records u)
          else none)
  unfolding heartbeat_listeners
  heartbeat_listeners-own_beats auth now listeners records u =
      let items = listeners_of json sets maps listeners in
      let start : Listening json sets maps = record {
        records = records;
        stale = [];
        unarmed = [];
      } in
      maps.lookup_keep (beat_listeners json sets maps auth now items start).records
        (sets.contains (listed json sets maps items)) u
      ∙ rw (contains-listed u items, lookup-beat_listeners auth now u items start) refl

  -- No more than `o`: the same record, or a staler one, or none.
  abbrev pub IsNoMore : Option (VisRecord sets) → Option (VisRecord sets) → Type 0
  IsNoMore o none = Unit
  IsNoMore none (some r') = ⊥
  IsNoMore (some r) (some r') =
      (r'.epoch ≡ r.epoch)
      × (r'.listener_gen ≡ r.listener_gen)
      × (r'.excl ≡ r.excl)
      × (r'.mute ≡ r.mute)
      × (r.stale ≡ true → r'.stale ≡ true)

  IsNoMore-self : (o : Option (VisRecord sets)) → IsNoMore o o
  IsNoMore-self none = tt
  IsNoMore-self (some r) = (refl, refl, refl, refl, λ h. h)

  IsNoMore-trans : (a b c : Option (VisRecord sets)) → IsNoMore a b → IsNoMore b c → IsNoMore a c
  IsNoMore-trans a b none h k = tt
  IsNoMore-trans a none (some r) h k = absurd k
  IsNoMore-trans none (some r') (some r) h k = absurd h
  IsNoMore-trans (some r) (some r') (some q) h k =
      (k.0 ∙ h.0, k.1 ∙ h.1, k.2 ∙ h.2, k.3 ∙ h.3, λ s. k.4 (h.4 s))

  beat_own-IsNoMore :
      (auth : ℕ) (now : ℤ) (g : json.Value) (o : Option (VisRecord sets))
      → IsNoMore o (beat_own auth now g o)
  beat_own-IsNoMore auth now g none = tt
  beat_own-IsNoMore auth now g (some r) =
      choice (IsNoMore (some r)) (r.epoch == auth) _ _
        (choice (IsNoMore (some r))
          (json.is_integer g && eqb_ℤ (json.integer_value g) (pos r.listener_gen)) _ _
          (refl, refl, refl, refl, λ h. h) (refl, refl, refl, refl, λ h. refl))
        (refl, refl, refl, refl, λ h. h)

  own_beats-IsNoMore :
      (auth : ℕ) (now : ℤ) (u : CString) (items : List (CString × json.Value))
      (o : Option (VisRecord sets))
      → IsNoMore o (own_beats auth now u items o)
  own_beats-IsNoMore auth now u [] o = IsNoMore-self o
  own_beats-IsNoMore auth now u ((l, g) ∷ items) o =
      let step = if str_eq l u then beat_own auth now g o else o in
      IsNoMore-trans o step _
        (choice (IsNoMore o) (str_eq l u) _ _ (beat_own-IsNoMore auth now g o) (IsNoMore-self o))
        (own_beats-IsNoMore auth now u items step)

  -- The records of a room after a heartbeat's listeners.
  heartbeat_listeners-IsNoMore :
      (auth : ℕ) (now : ℤ) (listeners : Option json.Value) (records : maps.Map) (u : CString)
      → IsNoMore
          (maps.lookup records u)
          (maps.lookup (heartbeat_listeners json sets maps auth now listeners records).records u)
  heartbeat_listeners-IsNoMore auth now listeners records u =
      rw (heartbeat_listeners-own_beats auth now listeners records u) (
        choice (IsNoMore (maps.lookup records u))
          (is_listed u (listeners_of json sets maps listeners)) _ _
          (own_beats-IsNoMore auth now u (listeners_of json sets maps listeners)
            (maps.lookup records u))
          tt)

  marked-IsNoMore :
      (o : Option (VisRecord sets)) → IsNoMore o (map_option (marked json sets maps) o)
  marked-IsNoMore none = tt
  marked-IsNoMore (some r) = (refl, refl, refl, refl, λ h. refl)

  stopped-IsNoMore :
      (records : maps.Map) (u : CString)
      → IsNoMore
          (maps.lookup records u)
          (maps.lookup (maps.update_all records (marked json sets maps)) u)
  stopped-IsNoMore records u =
      rw (maps.lookup_update_all records (marked json sets maps) u)
        (marked-IsNoMore (maps.lookup records u))

module _ (json : Json) (sets : StrSet) (maps : StrMap (VisRecord sets)) (settings : Settings) where
  abbrev record_of : BeatRoom json sets maps → CString → Option (VisRecord sets)
  record_of b u = maps.lookup b.room.vis_records u

  abbrev LeavesNoMore : Room sets maps → CString → Room sets maps × EpochVerdict → Type 0
  LeavesNoMore room u r =
      IsNoMore json sets maps (maps.lookup room.vis_records u) (maps.lookup r.0.vis_records u)

  adopted-IsNoMore :
      (epoch : ℕ) (now : ℤ) (room : Room sets maps) (u : CString)
      → IsNoMore json sets maps
          (maps.lookup room.vis_records u)
          (maps.lookup (vis_adopt sets maps settings epoch now room).0.vis_records u)
  unfolding vis_adopt
  adopted-IsNoMore epoch now room u =
      let v =
        epoch_decide room.vis_auth_epoch room.vis_auth_last_us now (stale_us settings) epoch in
      let kept = IsNoMore-self json sets maps (maps.lookup room.vis_records u) in
      choice (LeavesNoMore room u) (is_stale v) _ _ kept
        (choice (LeavesNoMore room u) (is_equal v) _ _ kept (rw (maps.lookup_empty u) tt))

  not_and_false : (b : Bool) → (b && false) ≡ false
  not_and_false b = ground arith

  abbrev BeatLeaves :
      BeatRoom json sets maps → CString → BeatReply × BeatRoom json sets maps → Type 0
  BeatLeaves b u r = IsNoMore json sets maps (record_of b u) (record_of r.1 u)

  -- A heartbeat never arms a listener: whatever it says, each record after it is one that the room had, of
  -- the same epoch, generation and columns, and one that was stale still is.
  pub beat_room-IsNoMore :
      (beat : Beat) (entry : Option json.Value) (now : ℤ) (b : BeatRoom json sets maps)
      (u : CString)
      → IsNoMore json sets maps
          (maps.lookup b.room.vis_records u)
          (maps.lookup (beat_room json sets maps settings beat entry now b).1.room.vis_records u)
  unfolding beat_room beat_stop beat_live
  beat_room-IsNoMore beat entry now b u =
      let (room, v) = vis_adopt sets maps settings beat.epoch now b.room in
      let adopted = adopted-IsNoMore beat.epoch now b.room u in
      choice (BeatLeaves b u) (beat.feed_stale && not beat.stopping) _ _
        (IsNoMore-self json sets maps (record_of b u))
        (choice (BeatLeaves b u) (is_stale v) _ _ adopted (
          choice (BeatLeaves b u) beat.stopping _ _
            (IsNoMore-trans json sets maps _ (maps.lookup room.vis_records u) _ adopted
              (stopped-IsNoMore json sets maps room.vis_records u))
            (choice (BeatLeaves b u)
              (is_outdated json sets maps (member json sets maps entry (codes "as_of"))
                room.vis_policy_gen)
              _ _ adopted
              (IsNoMore-trans json sets maps _ (maps.lookup room.vis_records u) _ adopted (
                heartbeat_listeners-IsNoMore json sets maps room.vis_auth_epoch now
                  (member json sets maps entry (codes "listeners")) room.vis_records u)))))

  abbrev IsStale : Option (VisRecord sets) → Type 0
  IsStale none = Unit {0}
  IsStale (some r) = r.stale ≡ true

  IsStale-kept :
      (o o' : Option (VisRecord sets)) → IsNoMore json sets maps o o' → IsStale o → IsStale o'
  IsStale-kept o none h s = tt
  IsStale-kept none (some r') h s = absurd h
  IsStale-kept (some r) (some r') h s = h.4 s

  IsStale-marked : (o : Option (VisRecord sets)) → IsStale (map_option (marked json sets maps) o)
  IsStale-marked none = tt
  IsStale-marked (some r) = refl

  record_row-stale :
      (room : Room sets maps) (later : ℤ) (o : Option (VisRecord sets))
      → IsStale o
      → (record_row sets maps settings room later o == 4) ≡ false
  unfolding vis_row
  record_row-stale room later none s = refl
  record_row-stale room later (some r) s = ground (arith, s)

  -- Every record of the room is stale.
  abbrev AllStale : BeatRoom json sets maps → Type 0
  AllStale b = (u : CString) → IsStale (record_of b u)

  vis_ok-stale :
      (b : BeatRoom json sets maps) (display : Option CString) (later : ℤ)
      → AllStale b
      → vis_ok sets maps settings b.room display later ≡ false
  unfolding vis_ok vis_row_locked vis_row
  vis_ok-stale b none later s = refl
  vis_ok-stale b (some d) later s = record_row-stale b.room later (record_of b d) (s d)

  -- The room after heartbeats, each with its entry for the room and its time.
  abbrev pub beats_after :
      List (Beat × Option json.Value × ℤ) → BeatRoom json sets maps → BeatRoom json sets maps
  beats_after [] b = b
  beats_after ((beat, entry, now) ∷ beats) b =
      beats_after beats (beat_room json sets maps settings beat entry now b).1

  beats_after-AllStale :
      (beats : List (Beat × Option json.Value × ℤ)) (b : BeatRoom json sets maps)
      → AllStale b
      → AllStale (beats_after beats b)
  beats_after-AllStale [] b s = s
  beats_after-AllStale ((beat, entry, now) ∷ beats) b s =
      beats_after-AllStale beats (beat_room json sets maps settings beat entry now b).1
        (λ u. IsStale-kept (record_of b u) _ (beat_room-IsNoMore beat entry now b u) (s u))

  beat_room-AllStale :
      (beat : Beat) (entry : Option json.Value) (now : ℤ) (b : BeatRoom json sets maps)
      → beat.stopping ≡ true
      → (beat_room json sets maps settings beat entry now b).0.status ≢ beat_stale_epoch
      → AllStale (beat_room json sets maps settings beat entry now b).1
  unfolding beat_room beat_stop
  beat_room-AllStale beat entry now b stop accepted u =
      let (room, v) = vis_adopt sets maps settings beat.epoch now b.room in
      elim (Bool-cases (is_stale v)) [
        | inl stale ↦ absurd (accepted (rw (stop, not_and_false beat.feed_stale, stale) refl))
        | inr current ↦
            rw (stop, not_and_false beat.feed_stale, current)
              (rw (maps.lookup_update_all room.vis_records (marked json sets maps) u)
                (IsStale-marked (maps.lookup room.vis_records u)))
      ]

  -- When a heartbeat that is not of a stale epoch says that the authority stops, no listener of the room is
  -- visible after it, whatever the time, and whatever heartbeats follow, of this authority or another.
  pub beat_room-stopped :
      (beat : Beat) (entry : Option json.Value) (now later : ℤ) (b : BeatRoom json sets maps)
      (beats : List (Beat × Option json.Value × ℤ)) (display : Option CString)
      → beat.stopping ≡ true
      → (beat_room json sets maps settings beat entry now b).0.status ≢ beat_stale_epoch
      → vis_ok sets maps settings
          (beats_after beats (beat_room json sets maps settings beat entry now b).1).room
          display
          later
        ≡ false
  beat_room-stopped beat entry now later b beats display stop accepted =
      let after = (beat_room json sets maps settings beat entry now b).1 in
      vis_ok-stale (beats_after beats after) display later
        (beats_after-AllStale beats after (beat_room-AllStale beat entry now b stop accepted))
