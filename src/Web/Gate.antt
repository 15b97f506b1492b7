-- ===== src/Web/Gate.antt =====
-- `corsMiddleware` of pkg/web/server.go: which requests reach a handler. The response headers and the
-- duration that is logged are left out; what the audit log is given of the client is kept.
pub mod Access
use ctop.Prelude.{
  ℕ, Bool, true, false, not, ◌&&◌, ◌||◌, List, [], ◌∷◌, ◌++◌, Option, none, some, if◌then◌else◌,
  leb, length, take, ◌==◌,
}
use ctop.Prelude.Texts.{Text, codes, text_eq, has_prefix, contains, trim_prefix}
use ctop.Web.Request.{Net, Request, is_direct_local_access, is_tls_or_secure_proxy}
use ctop.Web.Sessions.{SessionStore, validate_session}
use ctop.Web.RateLimit.{LoginRateLimiter}

-- `secureCompare`: equal lengths, and `subtle.ConstantTimeCompare` on them.
unfoldable pub secure_compare : Text → Text → Bool
secure_compare a b = if not (length a == length b) then false else text_eq a b

pub data AuthType : Type 0 where
  no_auth loopback bearer session : AuthType

pub record AuthInfo : Type 0 where
  pub type : AuthType
  pub authenticated : Bool
  pub token_prefix : Text
  pub session_id : Text

-- `serve` hands the request to the next handler; `refuse` answers with a status.
pub data Outcome : Type 0 where
  serve : AuthInfo → Outcome
  refuse : ℕ → Outcome

pub record Server : Type 0 where
  pub url_prefix : Text
  pub auth_token : Text
  pub session_store : SessionStore
  pub rate_limiter : LoginRateLimiter

abbrev pub anonymous : AuthInfo
anonymous = record { type = no_auth; authenticated = false; token_prefix = []; session_id = [] }

-- `if len(token) >= 4 { token[:4] + "..." }`
abbrev pub bearer_info : Text → AuthInfo
bearer_info token = record {
  type = bearer;
  authenticated = true;
  token_prefix = if leb 4 (length token) then take 4 token ++ codes "..." else [];
  session_id = [];
}

abbrev pub session_info : Text → AuthInfo
session_info id = record {
  type = session;
  authenticated = true;
  token_prefix = [];
  session_id = if leb 8 (length id) then take 8 id else [];
}

abbrev pub bearer_prefix : Text
bearer_prefix = codes "Bearer "

abbrev pub authorization : Text
authorization = codes "Authorization"

unfoldable pub is_options : Request → Bool
is_options r = text_eq r.method (codes "OPTIONS")

unfoldable pub traverses : Request → Bool
traverses r =
    contains r.path (codes "..") || contains r.raw_path (codes "..") || contains r.path (b'\\' ∷ [])

abbrev pub req_path : Server → Request → Text
req_path s r = elim s.url_prefix [ [] ↦ r.path | c ∷ cs ↦ trim_prefix r.path (c ∷ cs) ]

unfoldable pub is_auth_action : Server → Request → Bool
is_auth_action s r =
    text_eq (req_path s r) (codes "/api/v1/auth/login")
    || text_eq (req_path s r) (codes "/api/v1/auth/login/")
    || text_eq (req_path s r) (codes "/api/v1/auth/logout")
    || text_eq (req_path s r) (codes "/api/v1/auth/logout/")

unfoldable pub is_auth_status : Server → Request → Bool
is_auth_status s r =
    text_eq (req_path s r) (codes "/api/v1/auth/status")
    || text_eq (req_path s r) (codes "/api/v1/auth/status/")

unfoldable pub is_read : Request → Bool
is_read r = text_eq r.method (codes "GET") || text_eq r.method (codes "HEAD")

unfoldable pub is_root_index : Server → Request → Bool
is_root_index s r =
    text_eq r.path (codes "/")
    || text_eq r.path s.url_prefix
    || text_eq r.path (s.url_prefix ++ codes "/")

-- Steps 3 and 4, and the refusal of all else. The answer to a token in the query has the same status.
after_cookie : Server → Request → Outcome
after_cookie s r =
    if not (text_eq r.query_token [] && text_eq r.query_auth [])
    then refuse 401
    else if is_root_index s r
    then serve anonymous
    else refuse 401

-- Step 2: the cookie. `ValidateSession` changes the store also where it refuses.
check_cookie : ℕ → Server → Request → Option Text → SessionStore × Outcome
unfolding after_cookie
check_cookie now s r none = (s.session_store, after_cookie s r)
check_cookie now s r (some id) =
    let (store, valid) = validate_session id now s.session_store in
    (store, if valid then serve (session_info id) else after_cookie s r)

-- Step 1: the `Authorization` header.
check_bearer : ℕ → Server → Request → SessionStore × Outcome
unfolding check_cookie
check_bearer now s r =
    if has_prefix (r.header authorization) bearer_prefix
    then (
      s.session_store,
      if secure_compare (trim_prefix (r.header authorization) bearer_prefix) s.auth_token
          then serve (bearer_info s.auth_token)
          else refuse 401,
    )
    else check_cookie now s r r.cookie

-- With a token configured.
enforce : Net → ℕ → Server → Request → SessionStore × Outcome
unfolding check_bearer
enforce net now s r =
    if is_direct_local_access net r
    then (s.session_store, serve (record anonymous { type = loopback; authenticated = true }))
    else if not (is_tls_or_secure_proxy net r)
    then (s.session_store, refuse 403)
    else if is_auth_action s r || is_auth_status s r
    then (s.session_store, serve anonymous)
    else check_bearer now s r

unfoldable pub cors_middleware : Net → ℕ → Server → Request → SessionStore × Outcome
unfolding enforce
cors_middleware net now s r =
    if is_options r
    then (s.session_store, refuse 204)
    else if traverses r
    then (s.session_store, refuse 400)
    else if not (is_auth_action s r) && not (is_read r)
    then (s.session_store, refuse 405)
    else if not (text_eq s.auth_token [])
    then enforce net now s r
    else (s.session_store, serve (record anonymous { authenticated = true }))
