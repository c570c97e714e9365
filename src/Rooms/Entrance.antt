-- ===== src/Rooms/Entrance.antt =====
-- What a join that passes the gates of `janus_slvoice_handler` has shown, in a room that requires a
-- capability.
use legion_voice_mixer.Prelude.{
  ℕ, ◌<◌, ◌≡◌, refl, Bool, true, false, List, [], ◌∷◌, ◌||◌, Option, none, some, CString, length,
  arith,
}
use legion_voice_mixer.Prelude.Int.{ℤ}
use legion_voice_mixer.Joincap.{Verdict, cap_ok}
use legion_voice_mixer.Joincap.Parse.{Crypto}
use legion_voice_mixer.Joincap.Gate.{Gate, inc, text_of, joincap_verify}
use legion_voice_mixer.Joincap.Admission.{Admitted, verify_text-Admitted}
use legion_voice_mixer.Rooms.Joining.{
  JoinRoom, JoinRequest, room_ref_by_id, check_capacity, check_verdict, admit_to, admit, to_int64,
  is_cap_gated,
}

room_ref_by_id-live :
    (id : ℕ) (rooms : List JoinRoom) (r : JoinRoom)
    → room_ref_by_id id rooms ≡ some r
    → r.live.destroyed ≡ false
unfolding room_ref_by_id
room_ref_by_id-live id [] r h = ground (arith, h)
room_ref_by_id-live id (x ∷ xs) r h = ground (arith, h, room_ref_by_id-live id xs r)

module _ (crypto : Crypto) (k : List ℕ) (room_size : ℕ) where
  check_verdict_ok :
      (q : JoinRequest) (r : JoinRoom) (x : Verdict × Gate)
      → is_cap_gated r ≡ true
      → (check_verdict crypto (some k) true room_size q r x).0 ≡ none
      → (x.0 ≡ cap_ok) × (length r.live.participants < room_size)
  unfolding check_capacity
  check_verdict_ok q r x gated h = ground (arith, gated, h)

  -- Behind a good verdict is a text, and what it proves.
  abbrev pub IsEntitled : JoinRequest → ℕ → ℕ → ℤ → Gate → Type 0
  IsEntitled q id auth_epoch now_s g =
      (t : CString) × (text_of q.join_cap ≡ some t)
      × Admitted crypto k t q.display q.session_id (to_int64 id) auth_epoch now_s
          (record g { seen = inc g.seen })

  joincap_verify_ok :
      (q : JoinRequest) (id auth_epoch policy_gen : ℕ) (gated : Bool) (now_s : ℤ) (g : Gate)
      → (joincap_verify crypto
          (some k)
          q.join_cap
          q.display
          q.session_id
          (to_int64 id)
          auth_epoch
          policy_gen
          gated
          now_s
          g).0
        ≡ cap_ok
      → IsEntitled q id auth_epoch now_s g
  unfolding joincap_verify
  joincap_verify_ok q id auth_epoch policy_gen gated now_s g h = go (text_of q.join_cap) refl
    where
      go : (o : Option CString) → text_of q.join_cap ≡ o → IsEntitled q id auth_epoch now_s g
      go none e = absurd ground (arith, h, e)
      go (some t) e = (
        t,
        e,
        verify_text-Admitted crypto k t q.display q.session_id (to_int64 id) auth_epoch policy_gen
            now_s (record g { seen = inc g.seen }) (rw (e, joincap_verify) at h),
      )

  admit_to_ok :
      (now_s : ℤ) (id : ℕ) (q : JoinRequest) (r : JoinRoom) (g : Gate)
      → is_cap_gated r ≡ true
      → (admit_to crypto (some k) true room_size now_s id q r g).0 ≡ none
      → IsEntitled q id r.vis_auth_epoch now_s g × (length r.live.participants < room_size)
  unfolding admit_to
  admit_to_ok now_s id q r g gated h = go q.has_jsep refl
    where
      go :
          (b : Bool)
          → q.has_jsep ≡ b
          → IsEntitled q id r.vis_auth_epoch now_s g × (length r.live.participants < room_size)
      go false e = absurd ground (arith, h, e)
      go true e =
          let (ok, place) =
            check_verdict_ok q r
              (joincap_verify crypto (some k) q.join_cap q.display q.session_id (to_int64 id)
                r.vis_auth_epoch r.vis_policy_gen (is_cap_gated r) now_s g)
              gated (rw e at h) in
          (
            joincap_verify_ok q id r.vis_auth_epoch r.vis_policy_gen (is_cap_gated r) now_s g ok,
            place,
          )

  -- Where a key is configured and capabilities are required, a join that passes the gates of a room that a
  -- simulator made or declared is of a session in no room, into a room that is not destroyed and
  -- has a place left, and carries a capability that is signed, in context, in its window, unspent, and
  -- not older than the room's authority.
  pub admit-Admitted :
      (now_s : ℤ) (already : Bool) (q : JoinRequest) (id : ℕ) (rooms : List JoinRoom) (r : JoinRoom)
      (g : Gate)
      → q.room ≡ some id
      → room_ref_by_id id rooms ≡ some r
      → (r.vis_declared || r.sim_created) ≡ true
      → (admit crypto (some k) true room_size now_s already q rooms g).0 ≡ none
      → (already ≡ false)
        × (r.live.destroyed ≡ false)
        × (length r.live.participants < room_size)
        × IsEntitled q id r.vis_auth_epoch now_s g
  unfolding admit
  admit-Admitted now_s already q id rooms r g e f gated h =
      let found : (already ≡ false)
          × ((admit_to crypto (some k) true room_size now_s id q r g).0 ≡ none) =
        ground (arith, e, f, h) in
      let (entitled, place) = admit_to_ok now_s id q r g (unfold is_cap_gated in gated) found.1 in
      (found.0, room_ref_by_id-live id rooms r f, place, entitled)
