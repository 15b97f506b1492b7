-- ===== src/Web/Request.antt =====
-- What pkg/web/server.go reads of an HTTP request, and where the request comes from. Of Go's `net`
-- package, `Net` holds the two calls that the code makes.
use ctop.Prelude.{Bool, true, false, not, ◌||◌, [], ◌∷◌, Option, none, some, if◌then◌else◌}
use ctop.Prelude.Texts.{Text, codes, text_eq, to_lower, trim_space, cut}

pub record Net : Type 0 where
  -- The host of `net.SplitHostPort`, `none` where that returns an error.
  pub split_host_port : Text → Option Text
  -- `ip := net.ParseIP(host); ip != nil && ip.IsLoopback()`
  pub is_loopback_ip : Text → Bool

pub record Request : Type 0 where
  pub method : Text
  pub path : Text
  pub raw_path : Text
  -- `r.Header.Get`, "" for a header that is not there.
  pub header : Text → Text
  -- `r.TLS != nil`
  pub tls : Bool
  pub remote_addr : Text
  -- The `ctop_session` cookie.
  pub cookie : Option Text
  -- `r.URL.Query().Get` of "token" and of "auth".
  pub query_token : Text
  pub query_auth : Text

abbrev is_empty : Text → Bool
is_empty [] = true
is_empty (c ∷ cs) = false

abbrev pub has_header : Request → Text → Bool
has_header r name = not (is_empty (r.header name))

-- `strings.EqualFold(r.Header.Get(name), value)` for an ASCII value.
abbrev pub header_is : Request → Text → Text → Bool
header_is r name value = text_eq (to_lower (r.header name)) value

host_of : Net → Text → Text
host_of net addr = elim (net.split_host_port addr) [ none ↦ addr | some host ↦ host ]

unfoldable pub is_loopback_addr : Net → Text → Bool
unfolding host_of
is_loopback_addr net [] = true
is_loopback_addr net (c ∷ cs) =
    let host = host_of net (c ∷ cs) in
    text_eq host (codes "127.0.0.1")
    || text_eq host (codes "::1")
    || text_eq host (codes "localhost")
    || net.is_loopback_ip host

has_proxy_headers : Request → Bool
has_proxy_headers r =
    has_header r (codes "X-Forwarded-For")
    || has_header r (codes "X-Real-IP")
    || has_header r (codes "X-Forwarded-Proto")
    || has_header r (codes "X-Forwarded-Host")
    || has_header r (codes "X-Forwarded-Scheme")
    || has_header r (codes "Front-End-Https")

unfoldable pub is_direct_local_access : Net → Request → Bool
unfolding has_proxy_headers is_loopback_addr
is_direct_local_access net r =
    if has_proxy_headers r then false else is_loopback_addr net r.remote_addr

unfoldable pub is_tls_or_secure_proxy : Net → Request → Bool
unfolding is_direct_local_access
is_tls_or_secure_proxy net r =
    r.tls
    || header_is r (codes "X-Forwarded-Proto") (codes "https")
    || header_is r (codes "X-Forwarded-Ssl") (codes "on")
    || header_is r (codes "X-Forwarded-Scheme") (codes "https")
    || header_is r (codes "Front-End-Https") (codes "on")
    || is_direct_local_access net r

-- `strings.Split(xff, ",")[0]`, trimmed.
abbrev first_hop : Text → Text
first_hop xff = trim_space (cut b',' xff).0

-- What follows where the first hop is no address.
client_ip_behind : Net → Request → Text
unfolding host_of
client_ip_behind net r =
    if has_header r (codes "X-Real-IP")
    then trim_space (r.header (codes "X-Real-IP"))
    else host_of net r.remote_addr

unfoldable pub get_client_ip : Net → Request → Text
unfolding client_ip_behind
get_client_ip net r =
    if not (is_empty (first_hop (r.header (codes "X-Forwarded-For"))))
    then first_hop (r.header (codes "X-Forwarded-For"))
    else client_ip_behind net r
