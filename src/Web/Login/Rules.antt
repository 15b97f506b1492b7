-- ===== src/Web/Login/Rules.antt =====
-- What the login, logout and status routes promise, alone and together with the gate.
use ctop.Prelude.{
  ℕ, ◌≤◌, ◌≡◌, ◌≢◌, ◌∙◌, Bool, true, false, not, ◌&&◌, ◌||◌, List, [], ◌∷◌, Option, none, some,
  if◌then◌else◌, ◌⊎◌, inl, inr, arith, length, select, Option-cases,
}
use ctop.Prelude.Int.{ℤ}
use ctop.Prelude.Texts.{Text, text_eq, text_eq_iff, has_prefix}
use ctop.Web.Request.{Net, Request, is_direct_local_access, is_tls_or_secure_proxy, get_client_ip}
use ctop.Web.Sessions.{Session, create_session, validate_session, is_expired, is_session_valid}
use ctop.Web.Sessions.Validity.{revoke_session-refused, lookup-create_session}
use ctop.Web.RateLimit.{new_login_rate_limiter, allow, within}
use ctop.Web.RateLimit.Window.{
  Event, asked, failed, succeeded, run, failures_since_success, InOrder, allow-sliding_window,
}
use ctop.Web.Gate.{
  Server, Outcome, serve, refuse, session_info, secure_compare, authorization, bearer_prefix,
  is_auth_action, is_auth_status, is_read, is_options, traverses, is_root_index, cors_middleware,
}
use ctop.Web.Gate.Access.{cors_middleware-session}
use ctop.Web.Login.{
  Cookie, plain, is_post, is_secure_request, handle_auth_login, handle_auth_logout,
  handle_auth_status, bearer_matches,
}

secure_compare-false : (a b : Text) → a ≢ b → secure_compare a b ≡ false
unfolding secure_compare
secure_compare-false a b h = ground (arith, text_eq_iff a b)

secure_compare-true : (a b : Text) → secure_compare a b ≡ true → a ≡ b
unfolding secure_compare
secure_compare-true a b h = ground (arith, text_eq_iff a b)

-- What the limiter sees of one login request.
pub login_events : Net → ℕ → Server → Request → Option Text → List Event
login_events net now s r body =
    let ip = get_client_ip net r in
    if not (is_post r)
    then []
    else if not (allow ip now s.rate_limiter).1
    then asked ip now ∷ []
    else elim body [
      | none ↦ asked ip now ∷ []
      | some token ↦
          if not (text_eq s.auth_token []) && not (secure_compare token s.auth_token)
          then asked ip now ∷ failed ip now ∷ []
          else asked ip now ∷ succeeded ip now ∷ []
    ]

module _ (net : Net) (now : ℕ) (s : Server) (r : Request) where
  -- A login changes the limiter by one question, followed by one failure exactly if the request is
  -- answered and its token is wrong, and by one success exactly if the token is right or none is set.
  pub handle_auth_login-events :
      (body fresh : Option Text)
      → (handle_auth_login net now s r body fresh).0.rate_limiter
        ≡ run s.rate_limiter (login_events net now s r body)
  unfolding handle_auth_login login_events run
  handle_auth_login-events none fresh = ground arith
  handle_auth_login-events (some token) none = ground arith
  handle_auth_login-events (some token) (some id) = ground arith

  -- A login sets a cookie only for a POST request of an address that the limiter admits, whose body
  -- holds the configured token (any token if none is configured). The cookie holds the identifier
  -- of the session that is then created, it is `Secure` exactly if the request came over TLS or from
  -- a proxy that says so, and the status is 200.
  pub handle_auth_login-cookie :
      (body fresh : Option Text) {cookie : Cookie}
      → (handle_auth_login net now s r body fresh).1.set_cookie ≡ some cookie
      → (is_post r ≡ true)
        × ((allow (get_client_ip net r) now s.rate_limiter).1 ≡ true)
        × ((s.auth_token ≡ []) ⊎ (body ≡ some s.auth_token))
        × (fresh ≡ some cookie.value)
        × (cookie.is_secure ≡ is_secure_request r)
        × ((handle_auth_login net now s r body fresh).0.session_store
            ≡ (create_session (some cookie.value) now s.session_store).0)
        × ((handle_auth_login net now s r body fresh).1.status ≡ 200)
  unfolding handle_auth_login create_session
  handle_auth_login-cookie none fresh h = absurd (ground arith)
  handle_auth_login-cookie (some token) none h = absurd (ground arith)
  handle_auth_login-cookie (some token) (some id) {cookie} h = (
    ground arith,
    ground arith,
    ground (arith, text_eq_iff s.auth_token [], secure_compare-true token s.auth_token),
    ground arith,
    ground arith,
    ground arith,
    ground arith,
  )

  -- A login that sets no cookie leaves the sessions as they were, and its status is not 200.
  pub handle_auth_login-no_cookie :
      (body fresh : Option Text)
      → (handle_auth_login net now s r body fresh).1.set_cookie ≡ none
      → ((handle_auth_login net now s r body fresh).0.session_store ≡ s.session_store)
        × ((handle_auth_login net now s r body fresh).1.status ≢ 200)
  unfolding handle_auth_login create_session
  handle_auth_login-no_cookie none fresh h = ground arith
  handle_auth_login-no_cookie (some token) none h = ground arith
  handle_auth_login-no_cookie (some token) (some id) h = ground arith

-- Take a server whose limiter has seen any history at a clock that does not go back. Once as many
-- failures of an address since its last success as the limiter allows lie within the window, a
-- login POST from that address is answered 429 whatever its body is, with the right token too; no
-- session is created and no cookie set.
pub handle_auth_login-locked_out :
    (net : Net) (now : ℕ) (s : Server) (r : Request) (body fresh : Option Text)
    (max_attempts window : ℤ) (history : List Event)
    → InOrder 0 history now
    → s.rate_limiter ≡ run (new_login_rate_limiter max_attempts window) history
    → (new_login_rate_limiter max_attempts window).max_attempts
      ≤ length (
          select
            (within (new_login_rate_limiter max_attempts window).window_period now)
            (failures_since_success (get_client_ip net r) [] history))
    → is_post r ≡ true
    → ((handle_auth_login net now s r body fresh).1 ≡ plain 429)
      × ((handle_auth_login net now s r body fresh).0.session_store ≡ s.session_store)
unfolding handle_auth_login
handle_auth_login-locked_out net now s r body fresh m w history o e full post =
    let ip = get_client_ip net r in
    let shut : (allow ip now s.rate_limiter).1 ≡ false =
      rw e (allow-sliding_window m w ip history now o ∙ ground arith) in
    (ground arith, ground arith)

-- The server after a login, and the session that a login at this time creates.
abbrev pub after_login : Net → ℕ → Server → Request → Option Text → Text → Server
after_login net now s login body id = (handle_auth_login net now s login body (some id)).0

abbrev pub created : Text → ℕ → Session
created id now = record { id = id; created_at = now; last_seen = now }

-- Take a login that has set the cookie with the identifier `id`, on a server with a token. If the next
-- request that the server gets comes before the absolute limit and the idle timeout have passed, and is
-- a GET or HEAD of a path that is not open to all, which is clean, is not local, comes over TLS, has no
-- `Bearer` header and carries this cookie, it is served as that session.
pub handle_auth_login-served :
    (net : Net) (now later : ℕ) (s : Server) (login get : Request) (body : Option Text) (id : Text)
    {cookie : Cookie}
    → (handle_auth_login net now s login body (some id)).1.set_cookie ≡ some cookie
    → (after_login net now s login body id).auth_token ≢ []
    → id ≢ []
    → is_expired (after_login net now s login body id).session_store later (created id now) ≡ false
    → is_read get ≡ true
    → is_options get ≡ false
    → traverses get ≡ false
    → is_direct_local_access net get ≡ false
    → is_tls_or_secure_proxy net get ≡ true
    → (is_auth_action (after_login net now s login body id) get
        || is_auth_status (after_login net now s login body id) get)
      ≡ false
    → has_prefix (get.header authorization) bearer_prefix ≡ false
    → get.cookie ≡ some cookie.value
    → (cors_middleware net later (after_login net now s login body id) get).1
      ≡ serve (session_info id)
handle_auth_login-served net now later s login get body id {cookie} c ne nid live rd op tr far tls
      other nb ck =
    let facts = handle_auth_login-cookie net now s login body (some id) c in
    let s' = (handle_auth_login net now s login body (some id)).0 in
    let same : id ≡ cookie.value = ground (arith, facts.3) in
    cors_middleware-session net later s' get id
      (record { id = id; created_at = now; last_seen = now }) rd op tr far tls ne other nb
      (rw same ck) nid (rw facts.5 (rw (← same) (lookup-create_session id now s.session_store)))
      live

-- After a logout POST the session of its cookie is refused by both checks, at every time, and the
-- cookie is emptied.
pub handle_auth_logout-refused :
    (s : Server) (r : Request) (id : Text) (later : ℕ)
    → is_post r ≡ true
    → r.cookie ≡ some id
    → let (s', response) = handle_auth_logout s r in
      (is_session_valid id later s'.session_store ≡ false)
      × ((validate_session id later s'.session_store).1 ≡ false)
      × (response.set_cookie
          ≡ some (record { value = []; is_secure = is_secure_request r; expires_now = true }))
unfolding handle_auth_logout
handle_auth_logout-refused s r id later post ck =
    let (a, b) = revoke_session-refused id later s.session_store in
    (ground (arith, a), ground (arith, b), ground arith)

abbrev pub serves : Outcome → Bool
serves (serve info) = true
serves (refuse status) = false

-- Whether `ValidateSession` accepts the cookie.
abbrev pub has_session : ℕ → Server → Option Text → Bool
has_session now s none = false
has_session now s (some id) = (validate_session id now s.session_store).1

-- Take a server with a token, and a GET or HEAD of a path that is not open to all, which is clean, and is
-- local or over TLS. Then the status route answers that the client is authenticated exactly if the gate
-- serves the request, or the request is one with a `Bearer` header of another token and the cookie of a
-- valid session; such a request, if it is not local, the gate refuses.
pub handle_auth_status-cors_middleware :
    (net : Net) (now : ℕ) (s : Server) (r : Request)
    → s.auth_token ≢ []
    → is_read r ≡ true
    → is_options r ≡ false
    → traverses r ≡ false
    → (is_direct_local_access net r ≡ true) ⊎ (is_tls_or_secure_proxy net r ≡ true)
    → (is_auth_action s r || is_auth_status s r || is_root_index s r) ≡ false
    → let wrong = has_prefix (r.header authorization) bearer_prefix && not (bearer_matches s r) in
      let served = serves (cors_middleware net now s r).1 in
      ((handle_auth_status net now s r).1.authenticated
        ≡ (served || (wrong && has_session now s r.cookie)))
      × ((wrong && not (is_direct_local_access net r) && served) ≡ false)
unfolding handle_auth_status cors_middleware
handle_auth_status-cors_middleware net now s r ne rd op tr tls other =
    elim (Option-cases r.cookie) [
      | inl e ↦ ground (arith, text_eq_iff s.auth_token [])
      | inr (id, e) ↦ ground (arith, text_eq_iff s.auth_token [])
    ]
