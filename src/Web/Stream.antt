-- ===== src/Web/Stream.antt =====
-- `handleStream` of pkg/web/server.go, for a writer that can flush. What wakes the loop is a sequence,
-- with the time and the session store at that moment; the snapshot that is sent first is an argument.
-- The audit events are left out.
pub mod Sessions
use ctop.Prelude.{ℕ, Bool, true, false, not, ◌&&◌, List, [], ◌∷◌, Option, none, some, if◌then◌else◌}
use ctop.Prelude.Texts.{Text, text_eq}
use ctop.Web.Sessions.{SessionStore, is_session_valid}
use ctop.Web.Broadcaster.{Broadcaster, TelemetryEvent, subscribe, unsubscribe}

-- The client is gone, the ticker has fired, an event has come, or the channel is closed.
pub data Cause (P : Type 0) : Type 0 where
  gone : Cause P
  tick : Cause P
  arrival : TelemetryEvent P → Cause P
  closed : Cause P

pub record Wake (P : Type 0) : Type 0 where
  pub now : ℕ
  pub store : SessionStore
  pub cause : Cause P

pub data Frame (P : Type 0) : Type 0 where
  data_frame : TelemetryEvent P → Frame P
  keepalive : Frame P

abbrev pub session_of : Option Text → Text
session_of none = []
session_of (some id) = id

module _ {P : Type 0} where
  -- `sseSessionID != "" && !s.sessionStore.IsSessionValid(sseSessionID)`
  abbrev pub has_lost_session : Text → Wake P → Bool
  has_lost_session id w = not (text_eq id []) && not (is_session_valid id w.now w.store)

  unfoldable pub stream_loop : Text → List (Wake P) → List (Frame P)
  stream_loop id [] = []
  stream_loop id (w ∷ ws) =
      let rest = stream_loop id ws in
      elim w.cause [
        | gone ↦ []
        | tick ↦ if has_lost_session id w then [] else keepalive ∷ rest
        | arrival event ↦ if has_lost_session id w then [] else data_frame event ∷ rest
        | closed ↦ []
      ]

  abbrev pub after_subscribe :
      List (Frame P) → Broadcaster P × Option ℕ → Option (List (Frame P)) × Broadcaster P
  after_subscribe frames (b, none) = (none, b)
  after_subscribe frames (b, some ch) = (some frames, unsubscribe ch b)

  -- The frames that are written, none for 503, and the broadcaster after the handler.
  unfoldable pub handle_stream :
      ℕ
      → TelemetryEvent P
      → Option Text
      → List (Wake P)
      → Broadcaster P
      → Option (List (Frame P)) × Broadcaster P
  unfolding stream_loop
  handle_stream fresh initial cookie wakes b =
      after_subscribe (data_frame initial ∷ stream_loop (session_of cookie) wakes)
        (subscribe fresh b)
