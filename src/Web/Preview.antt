-- ===== src/Web/Preview.antt =====
-- The service preview of `handleContainerDetail` in pkg/web/server.go: the endpoint and path that it
-- probes. `clean` is `path.Clean(filepath.ToSlash(·))`.
pub mod Networks
use ctop.Prelude.{◌||◌, List, [], ◌∷◌, Option, none, some, if◌then◌else◌}
use ctop.Prelude.Int.{ℤ, pos, int_eq, int_lt}
use ctop.Prelude.Texts.{Text, codes, has_prefix, trim_prefix}
use ctop.Prelude.Split.{join_with, atoi, itoa}
use ctop.Service.Discover.{NetPackage, Endpoint, discover_endpoints}
use ctop.Web.Snapshot.{ContainerSnapshot, NetworkInfo}

-- The fields of a network, with ":::" between.
abbrev pub net_part : NetworkInfo → Text
net_part n =
    join_with (codes ":::") (n.name ∷ n.ip_address ∷ n.gateway ∷ n.mac ∷ itoa n.prefix_len ∷ [])

unfoldable pub net_parts : List NetworkInfo → List Text
net_parts [] = []
net_parts (n ∷ ns) = net_part n ∷ net_parts ns

unfoldable pub raw_net_str : ContainerSnapshot → Text
unfolding net_parts
raw_net_str snap = join_with (codes ";;") (net_parts snap.networks)

unfoldable pub endpoints_of : NetPackage → ContainerSnapshot → List Endpoint
endpoints_of net snap = discover_endpoints net snap.ports (raw_net_str snap) snap.env

abbrev first_port : List Endpoint → ℤ
first_port [] = pos 80
first_port (e ∷ es) = e.port

-- A number in a parameter that is no positive integer counts as not given.
abbrev pub positive_or : ℤ → Option ℤ → ℤ
positive_or default none = default
positive_or default (some n) = if int_lt (pos 0) n then n else default

unfoldable pub target_port : Text → List Endpoint → ℤ
target_port [] es = first_port es
target_port (c ∷ cs) es = positive_or (pos 80) (atoi (c ∷ cs))

abbrev rooted : Text → Text
rooted s = if has_prefix s (codes "/") then s else b'/' ∷ s

-- The loop that leaves one slash of those at the start.
single_slash : Text → Text
single_slash [] = []
single_slash (c ∷ []) = c ∷ []
single_slash (c ∷ d ∷ cs) =
    let rest = single_slash (d ∷ cs) in
    if has_prefix (c ∷ d ∷ cs) (codes "//") then rest else c ∷ d ∷ cs

unfoldable pub subpath_of : Text → Text
unfolding single_slash
subpath_of [] = codes "/"
subpath_of (c ∷ cs) = rooted (single_slash (rooted (c ∷ cs)))

abbrev pub forbidden : Text
forbidden = b'@' ∷ b'\\' ∷ 13 ∷ 10 ∷ []

unfoldable pub match_endpoint : ℤ → List Endpoint → Option Endpoint
match_endpoint port [] = none
match_endpoint port (e ∷ es) =
    let rest = match_endpoint port es in
    if int_eq e.port port || int_eq e.host_port port then some e else rest

unfoldable pub clean_path : (Text → Text) → Text → Text
clean_path clean subpath = b'/' ∷ trim_prefix (clean subpath) (codes "/")
