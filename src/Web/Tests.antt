-- ===== src/Web/Tests.antt =====
-- Runs of the web server's parts on concrete inputs, and the theorems applied there.
mod Gating
mod Data
mod History
use ctop.Prelude.{
  ℕ, ◌≡◌, refl, Bool, true, false, List, [], ◌∷◌, Option, none, some, arith, length, ◌≤◌, ◌<◌, inl,
  inr, ◌⊎◌, ltb, select,
}
use ctop.Prelude.Int.{pos}
use ctop.Prelude.Texts.{Text, codes, text_eq}
use ctop.Prelude.Assoc.{lookup, mem, keys, delete}
use ctop.Web.Sessions.{
  Session, SessionStore, new_session_store, create_session, validate_session, revoke_session,
  is_session_valid, evict_oldest, is_expired, older_than, set_idle_ttl,
}
use ctop.Web.Sessions.WellFormed.{WellFormed}
use ctop.Web.Sessions.Steps.{Reach, Step, Reach-WellFormed}
use ctop.Web.Sessions.Validity.{
  validate_session-is_session_valid, idle_disabled-refuses, validate_session-refused_for_good,
  revoke_session-refused,
}
use ctop.Web.Sessions.Recency.{seen}
use ctop.Web.Sessions.Eviction.{Timed, evict_oldest-least_recent}
use ctop.Web.RateLimit.{LoginRateLimiter, new_login_rate_limiter, allow, within}
use ctop.Web.RateLimit.Window.{
  Event, asked, failed, succeeded, run, failures_since_success, InOrder, allow-sliding_window,
}

abbrev pub new_store : SessionStore
new_store = new_session_store (pos 2) (pos 1000) (pos 100)

-- Sessions "a" and "b", created at 10 and 20.
abbrev pub two_sessions : SessionStore
two_sessions =
    (create_session (some (codes "b")) 20 (create_session (some (codes "a")) 10 new_store).0).0

third_evicts_oldest :
    (create_session (some (codes "c")) 30 two_sessions).0.order ≡ codes "b" ∷ codes "c" ∷ []
unfolding create_session new_session_store text_eq lookup ctop.Prelude.Assoc.insert
third_evicts_oldest = refl

allow-sliding_window_example :
    let rl = new_login_rate_limiter (pos 2) (pos 60) in
    let es = failed (codes "x") 10 ∷ asked (codes "x") 20 ∷ failed (codes "x") 30 ∷ [] in
    (allow (codes "x") 75 (run rl es)).1
    ≡ ltb
        (length (select (within rl.window_period 75) (failures_since_success (codes "x") [] es)))
        rl.max_attempts
allow-sliding_window_example =
    allow-sliding_window (pos 2) (pos 60) (codes "x")
      (failed (codes "x") 10 ∷ asked (codes "x") 20 ∷ failed (codes "x") 30 ∷ []) 75 (omega arith)

Reach-WellFormed_example : WellFormed (create_session (some (codes "a")) 10 new_store).0
unfolding mem new_session_store
Reach-WellFormed_example =
    Reach-WellFormed (pos 2) (pos 1000) (pos 100)
      (Reach.next Reach.here (Step.create (codes "a") 10 refl))

evict_oldest-least_recent_example :
    ((evict_oldest two_sessions).sessions ≡ delete (codes "a") two_sessions.sessions)
    × ((j : Text)
        → mem j (keys two_sessions.sessions) ≡ true
        → seen two_sessions.sessions (codes "a") ≤ seen two_sessions.sessions j)
unfolding mem new_session_store create_session ctop.Prelude.Assoc.insert text_eq
evict_oldest-least_recent_example =
    evict_oldest-least_recent (pos 2) (pos 1000) (pos 100) {now = 20} {s = two_sessions} (codes "a")
      (codes "b" ∷ [])
      (Timed.creates (codes "b")
        (Timed.wait (Timed.creates (codes "a") (Timed.start {now = 10}) refl) (omega arith)) refl)
      refl (omega arith)

-- A store whose idle timeout is switched off.
abbrev pub never_idle : SessionStore
never_idle = set_idle_ttl (pos 0) two_sessions

idle_disabled-refuses_example :
    (is_session_valid (codes "a") 11 never_idle ≡ true)
    × ((validate_session (codes "a") 11 never_idle).1 ≡ false)
    × (lookup (codes "a") (validate_session (codes "a") 11 never_idle).0.sessions ≡ none)
unfolding lookup set_idle_ttl create_session ctop.Prelude.Assoc.insert new_session_store text_eq
idle_disabled-refuses_example =
    idle_disabled-refuses (codes "a") 11 never_idle
      {sess = record { id = codes "a"; created_at = 10; last_seen = 10 }} (λ e. ground (arith, e))
      refl refl refl (omega arith)

validate_session-refused_for_good_example :
    let t = (validate_session (codes "a") 300 two_sessions).0 in
    (is_session_valid (codes "a") 5 t ≡ false) × ((validate_session (codes "a") 5 t).1 ≡ false)
unfolding validate_session lookup create_session ctop.Prelude.Assoc.insert new_session_store text_eq
validate_session-refused_for_good_example =
    validate_session-refused_for_good (codes "a") 300 5 two_sessions refl
