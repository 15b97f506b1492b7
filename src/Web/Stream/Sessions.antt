-- ===== src/Web/Stream/Sessions.antt =====
-- The event stream of pkg/web/server.go and the session of its client.
use ctop.Prelude.{
  ℕ, ◌≡◌, refl, ap, Bool, true, false, not, List, [], ◌∷◌, ◌++◌, some, if◌then◌else◌, arith,
}
use ctop.Prelude.Texts.{Text, text_eq}
use ctop.Web.Sessions.{SessionStore, revoke_session}
use ctop.Web.Sessions.Validity.{revoke_session-refused}
use ctop.Web.Broadcaster.{Broadcaster, TelemetryEvent, subscribe}
use ctop.Web.Stream.{
  Cause, gone, tick, arrival, closed, Wake, Frame, data_frame, keepalive, has_lost_session,
  stream_loop, after_subscribe, handle_stream,
}

module _ {P : Type 0} where
  -- What the wakes ask for, as long as there is no end.
  abbrev pub frame_of : Cause P → List (Frame P)
  frame_of tick = keepalive ∷ []
  frame_of (arrival event) = data_frame event ∷ []
  frame_of _ = []

  unfoldable pub frames_of : List (Wake P) → List (Frame P)
  frames_of [] = []
  frames_of (w ∷ ws) = frame_of w.cause ++ frames_of ws

  -- Wakes that do not end the stream.
  abbrev pub goes_on : Text → Wake P → Bool
  goes_on id w = elim w.cause [
    | gone ↦ false
    | tick ↦ not (has_lost_session id w)
    | arrival event ↦ not (has_lost_session id w)
    | closed ↦ false
  ]

  unfoldable pub until_end : Text → List (Wake P) → List (Wake P)
  until_end id [] = []
  until_end id (w ∷ ws) = let rest = until_end id ws in if goes_on id w then w ∷ rest else []

  stream_loop-until_end :
      (id : Text) (ws : List (Wake P)) → stream_loop id ws ≡ frames_of (until_end id ws)
  unfolding stream_loop until_end frames_of
  stream_loop-until_end id [] = refl
  stream_loop-until_end id (w ∷ ws) = ground (arith, stream_loop-until_end id ws)

  -- Where the session is lost the stream ends, whatever has come before and comes after.
  stream_loop-lost :
      (id : Text) (w : Wake P) (ws vs : List (Wake P))
      → has_lost_session id w ≡ true
      → stream_loop id (ws ++ w ∷ vs) ≡ stream_loop id ws
  unfolding stream_loop
  stream_loop-lost id w [] vs h = ground (arith, h)
  stream_loop-lost id w (v ∷ ws) vs h = ground (arith, stream_loop-lost id w ws vs h)

  lost_revoked :
      (c : ℕ) (cs : Text) (w : Wake P) (s : SessionStore)
      → w.store ≡ revoke_session (c ∷ cs) s
      → has_lost_session (c ∷ cs) w ≡ true
  unfolding text_eq
  lost_revoked c cs w s h = rw (h, (revoke_session-refused (c ∷ cs) w.now s).0) refl

  -- A client whose session has been revoked gets nothing more: from the first wake at which the store is
  -- one that a revocation of its session leaves, whatever happens then, the stream writes what it had
  -- written before, and the client's channel is taken back.
  pub handle_stream-revoked :
      (fresh : ℕ) (initial : TelemetryEvent P) (c : ℕ) (cs : Text) (b : Broadcaster P)
      (ws vs : List (Wake P)) (w : Wake P) (s : SessionStore)
      → w.store ≡ revoke_session (c ∷ cs) s
      → handle_stream fresh initial (some (c ∷ cs)) (ws ++ w ∷ vs) b
        ≡ handle_stream fresh initial (some (c ∷ cs)) ws b
  unfolding handle_stream
  handle_stream-revoked fresh initial c cs b ws vs w s h =
      ap (λ frames. after_subscribe (data_frame initial ∷ frames) (subscribe fresh b))
        (stream_loop-lost (c ∷ cs) w ws vs (lost_revoked c cs w s h))
