-- ===== src/Web/Gate/Access.antt =====
-- Who gets through `corsMiddleware` of pkg/web/server.go.
use ctop.Prelude.{
  ℕ, ◌≡◌, ◌≢◌, refl, ap, ◌∙◌, Bool, true, false, ◌||◌, [], ◌∷◌, ◌++◌, Option, none, some,
  if◌then◌else◌, ◌⊎◌, inl, inr, arith, Bool-cases,
}
use ctop.Prelude.Texts.{
  Text, codes, contains, text_eq, text_eq_iff, has_prefix, trim_prefix, drop_as,
}
use ctop.Prelude.Assoc.{lookup}
use ctop.Web.Request.{Net, Request, is_direct_local_access, is_tls_or_secure_proxy}
use ctop.Web.Sessions.{Session, validate_session, is_expired}
use ctop.Web.Sessions.Validity.{validate_session-true, validate_session-accepts}
use ctop.Web.Gate.{
  AuthInfo, serve, refuse, Server, anonymous, bearer_info, session_info, loopback, bearer_prefix,
  authorization, is_options, traverses, req_path, is_auth_action, is_auth_status, is_read,
  is_root_index, secure_compare, after_cookie, check_cookie, check_bearer, enforce, cors_middleware,
}

secure_compare-eq : (a b : Text) → secure_compare a b ≡ true → a ≡ b
unfolding secure_compare
secure_compare-eq a b h = ground (arith, text_eq_iff a b)

secure_compare_self : (a : Text) → secure_compare a a ≡ true
unfolding secure_compare
secure_compare_self a = ground (arith, text_eq_iff a a)

drop_as-append : (s p : Text) → has_prefix s p ≡ true → s ≡ p ++ drop_as s p
unfolding has_prefix
drop_as-append s [] h = refl
drop_as-append [] (p ∷ ps) h = ground arith
drop_as-append (c ∷ cs) (p ∷ ps) h = ground (arith, drop_as-append cs ps)

has_prefix-append : (p t : Text) → (has_prefix (p ++ t) p ≡ true) × (drop_as (p ++ t) p ≡ t)
unfolding has_prefix
has_prefix-append [] t = (refl, refl)
has_prefix-append (c ∷ p) t = ground (arith, has_prefix-append p t)

trim_prefix-append : (p t : Text) → trim_prefix (p ++ t) p ≡ t
unfolding trim_prefix
trim_prefix-append p t = let (h, d) = has_prefix-append p t in ground (arith, h, d)

trim_prefix-eq : (s p t : Text) → has_prefix s p ≡ true → trim_prefix s p ≡ t → s ≡ p ++ t
unfolding trim_prefix
trim_prefix-eq s p t h e = drop_as-append s p h ∙ ap (λ (x : Text). p ++ x) (ground arith)

-- What a request shows for itself, and what the gate then notes of it.
pub data Credential (net : Net) (now : ℕ) (s : Server) (r : Request) (info : AuthInfo)
    : Type 0 where
  is_local :
      is_direct_local_access net r ≡ true
      → info ≡ record anonymous { type = loopback; authenticated = true }
      → Credential net now s r info
  has_token :
      r.header authorization ≡ bearer_prefix ++ s.auth_token
      → info ≡ bearer_info s.auth_token
      → Credential net now s r info
  has_session :
      (id : Text) (sess : Session)
      → r.cookie ≡ some id
      → lookup id s.session_store.sessions ≡ some sess
      → is_expired s.session_store now sess ≡ false
      → info ≡ session_info id
      → Credential net now s r info
  is_public :
      (is_auth_action s r || is_auth_status s r || is_root_index s r) ≡ true
      → info ≡ anonymous
      → Credential net now s r info

-- The paths of login and logout.
abbrev pub IsAuthPath : Text → Type 0
IsAuthPath p =
    (p ≡ codes "/api/v1/auth/login")
    ⊎ (p ≡ codes "/api/v1/auth/login/")
    ⊎ (p ≡ codes "/api/v1/auth/logout")
    ⊎ (p ≡ codes "/api/v1/auth/logout/")

is_read-method :
    (r : Request) {A : Type 0}
    → is_read r ≡ true
    → (r.method ≡ codes "GET") ⊎ (r.method ≡ codes "HEAD") ⊎ A
unfolding is_read
is_read-method r h = elim (Bool-cases (text_eq r.method (codes "GET"))) [
  | inl e ↦ inl ((text_eq_iff r.method (codes "GET")).0 e)
  | inr e ↦ inr (inl ((text_eq_iff r.method (codes "HEAD")).0 (ground (arith, h, e))))
]

is_options-method : (r : Request) → is_options r ≡ false → r.method ≢ codes "OPTIONS"
unfolding is_options
is_options-method r h e = ground (arith, text_eq_iff r.method (codes "OPTIONS"), h, e)

req_path-eq :
    (s : Server) (r : Request) → (r.path ≡ req_path s r) ⊎ (r.path ≡ s.url_prefix ++ req_path s r)
req_path-eq s r = with_prefix s.url_prefix
  where
    with_prefix :
        (prefix : Text)
        → (r.path ≡ elim prefix [ [] ↦ r.path | c ∷ cs ↦ trim_prefix r.path (c ∷ cs) ])
          ⊎ (r.path ≡ prefix ++ elim prefix [ [] ↦ r.path | c ∷ cs ↦ trim_prefix r.path (c ∷ cs) ])
    with_prefix [] = inl refl
    with_prefix (c ∷ cs) = elim (Bool-cases (has_prefix r.path (c ∷ cs))) [
      | inl e ↦ inr (trim_prefix-eq r.path (c ∷ cs) (trim_prefix r.path (c ∷ cs)) e refl)
      | inr e ↦ inl (unfold trim_prefix in rw e refl)
    ]

is_auth_action-path :
    (s : Server) (r : Request)
    → is_auth_action s r ≡ true
    → (p : Text) × IsAuthPath p × ((r.path ≡ p) ⊎ (r.path ≡ s.url_prefix ++ p))
unfolding is_auth_action
is_auth_action-path s r h =
    let p = req_path s r in
    (
      p,
      ground (
        arith,
        h,
        text_eq_iff p (codes "/api/v1/auth/login"),
        text_eq_iff p (codes "/api/v1/auth/login/"),
        text_eq_iff p (codes "/api/v1/auth/logout"),
        text_eq_iff p (codes "/api/v1/auth/logout/"),
      ),
      req_path-eq s r,
    )

-- A test that guards a branch, and the outcome of the branch that serves.
serve_if :
    (b : Bool) (i info : AuthInfo) (n : ℕ)
    → (if b then serve i else refuse n) ≡ serve info
    → (b ≡ true) × (info ≡ i)
serve_if b i info n h = ground arith

module _ (net : Net) (now : ℕ) (s : Server) (r : Request) {info : AuthInfo} where
  after_cookie-Credential : after_cookie s r ≡ serve info → Credential net now s r info
  unfolding after_cookie
  after_cookie-Credential h = is_public (ground arith) (ground arith)

  check_cookie-Credential :
      (cookie : Option Text)
      → r.cookie ≡ cookie
      → (check_cookie now s r cookie).1 ≡ serve info
      → Credential net now s r info
  unfolding check_cookie
  check_cookie-Credential none e h = after_cookie-Credential h
  check_cookie-Credential (some id) e h =
      elim (Bool-cases (validate_session id now s.session_store).1) [
        | inl valid ↦
            let (sess, found, live) = validate_session-true id now s.session_store valid in
            has_session id sess e found live (ground arith)
        | inr invalid ↦ after_cookie-Credential (rw invalid at h)
      ]

  check_bearer-Credential : (check_bearer now s r).1 ≡ serve info → Credential net now s r info
  unfolding check_bearer
  check_bearer-Credential h =
      elim (Bool-cases (has_prefix (r.header authorization) bearer_prefix)) [
        | inl is_bearer ↦
            let sent = trim_prefix (r.header authorization) bearer_prefix in
            let (same, e) =
              serve_if (secure_compare sent s.auth_token) (bearer_info s.auth_token) info 401
                (ground arith) in
            has_token
              (trim_prefix-eq (r.header authorization) bearer_prefix s.auth_token is_bearer
                (secure_compare-eq sent s.auth_token same))
              e
        | inr other ↦ check_cookie-Credential r.cookie refl (ground arith)
      ]

  enforce-Credential :
      (enforce net now s r).1 ≡ serve info
      → ((is_direct_local_access net r ≡ true) ⊎ (is_tls_or_secure_proxy net r ≡ true))
        × Credential net now s r info
  unfolding enforce
  enforce-Credential h = elim (Bool-cases (is_direct_local_access net r)) [
    | inl near ↦ (inl near, is_local near (ground arith))
    | inr far ↦ elim (Bool-cases (is_tls_or_secure_proxy net r)) [
      | inr plain ↦ absurd (ground arith)
      | inl secure ↦ elim (Bool-cases (is_auth_action s r || is_auth_status s r)) [
        | inl action ↦ (inr secure, is_public (ground arith) (ground arith))
        | inr other ↦ (inr secure, check_bearer-Credential (ground arith))
      ]
    ]
  ]

  -- With a token configured, a request that is served comes from the local host, or over TLS (its
  -- own or that of a proxy that says so); and it shows one of these: that it is local; the header
  -- `Bearer ` followed by exactly the token; the cookie of a session that is in the store and has
  -- not expired; or a path that is open to all, namely login, logout, status or the root page.
  -- What the gate notes of the client is that of the credential.
  pub cors_middleware-Credential :
      s.auth_token ≢ []
      → (cors_middleware net now s r).1 ≡ serve info
      → ((is_direct_local_access net r ≡ true) ⊎ (is_tls_or_secure_proxy net r ≡ true))
        × Credential net now s r info
  unfolding cors_middleware
  cors_middleware-Credential ne h =
      enforce-Credential (ground (arith, text_eq_iff s.auth_token [], ne))

  -- A request that is served has no `..` in its path, decoded or raw, and no backslash in its path; and
  -- its method is GET or HEAD, or it is not OPTIONS and the path is that of login or logout, after the
  -- prefix of the server or without it.
  pub cors_middleware-read_only :
      (cors_middleware net now s r).1 ≡ serve info
      → (contains r.path (codes "..") ≡ false)
        × (contains r.raw_path (codes "..") ≡ false)
        × (contains r.path (b'\\' ∷ []) ≡ false)
        × ((r.method ≡ codes "GET")
            ⊎ (r.method ≡ codes "HEAD")
            ⊎ ((r.method ≢ codes "OPTIONS")
                × (p : Text) × IsAuthPath p
                × ((r.path ≡ p) ⊎ (r.path ≡ s.url_prefix ++ p))))
  unfolding cors_middleware traverses
  cors_middleware-read_only h = (
    ground (arith, h),
    ground (arith, h),
    ground (arith, h),
    elim (Bool-cases (is_read r)) [
      | inl e ↦ is_read-method r e
      | inr e ↦
          let (p, is_auth, place) = is_auth_action-path s r (ground (arith, h, e)) in
          inr (inr (is_options-method r (ground (arith, h)), p, is_auth, place))
    ],
  )

module _ (net : Net) (now : ℕ) (s : Server) (r : Request) where
  bearer_header :
      r.header authorization ≡ bearer_prefix ++ s.auth_token
      → (has_prefix (r.header authorization) bearer_prefix ≡ true)
        × (trim_prefix (r.header authorization) bearer_prefix ≡ s.auth_token)
  bearer_header e = (
    rw e (has_prefix-append bearer_prefix s.auth_token).0,
    rw e (trim_prefix-append bearer_prefix s.auth_token),
  )

  -- A GET or HEAD with a clean path that is not local, comes over TLS and has the header `Bearer `
  -- followed by the token is served, as the bearer of the token, whatever cookie it has; the session
  -- store stays as it was. Login, logout and status are served to it too, but with no note of the token.
  pub cors_middleware-bearer :
      is_read r ≡ true
      → is_options r ≡ false
      → traverses r ≡ false
      → is_direct_local_access net r ≡ false
      → is_tls_or_secure_proxy net r ≡ true
      → s.auth_token ≢ []
      → r.header authorization ≡ bearer_prefix ++ s.auth_token
      → cors_middleware net now s r ≡ (
        s.session_store,
        serve (
            if is_auth_action s r || is_auth_status s r
            then anonymous
            else bearer_info s.auth_token),
      )
  unfolding cors_middleware
  cors_middleware-bearer rd op tr far secure ne e =
      let (p, t) = bearer_header e in
      ground (arith, text_eq_iff s.auth_token [], secure_compare_self s.auth_token, p, t)

  -- A GET or HEAD with a clean path that is not local, comes over TLS and has no `Bearer` header, but
  -- the cookie of a session that is in the store and has not expired, is served, as that session.
  pub cors_middleware-session :
      (id : Text) (sess : Session)
      → is_read r ≡ true
      → is_options r ≡ false
      → traverses r ≡ false
      → is_direct_local_access net r ≡ false
      → is_tls_or_secure_proxy net r ≡ true
      → s.auth_token ≢ []
      → (is_auth_action s r || is_auth_status s r) ≡ false
      → has_prefix (r.header authorization) bearer_prefix ≡ false
      → r.cookie ≡ some id
      → id ≢ []
      → lookup id s.session_store.sessions ≡ some sess
      → is_expired s.session_store now sess ≡ false
      → (cors_middleware net now s r).1 ≡ serve (session_info id)
  unfolding cors_middleware
  cors_middleware-session id sess rd op tr far secure ne other nb c nid found live = ground (
    arith,
    text_eq_iff s.auth_token [],
    validate_session-accepts id now s.session_store sess nid found live,
  )
