-- ===== src/Service/Discover.antt =====
-- `DiscoverEndpoints` and `extractFirstContainerIP` of pkg/serviceprobe/discover.go. The set of ports
-- seen is the list of its keys.
pub mod Targets
pub mod Secrets
use ctop.Prelude.{
  ℕ, ◌+◌, Bool, true, false, not, ◌&&◌, ◌||◌, List, [], ◌∷◌, ◌++◌, Option, none, some,
  if◌then◌else◌, ◌==◌,
}
use mathlib.Core.List.{reverse}
use ctop.Prelude.Int.{ℤ, pos, int_eq, int_le}
use ctop.Prelude.Texts.{Text, codes, text_eq, trim_space, has_prefix, cut}
use ctop.Prelude.Split.{fields_func, split_run, atoi, itoa}
use ctop.Service.Ports.{PortPart, parse_port_part, describe_port}

pub record Endpoint : Type 0 where
  pub port : ℤ
  pub host_ip : Text
  pub host_port : ℤ
  pub protocol : Text
  pub url : Text
  pub description : Text
  pub is_exposed : Bool

-- What the package reads of the `net.IP` that `net.ParseIP` gives, `to4` the bytes of `ip.To4()`.
pub record Ip : Type 0 where
  pub is_loopback : Bool
  pub to4 : Option (List ℕ)
  pub is_unspecified : Bool
  pub is_link_local_unicast : Bool
  pub is_link_local_multicast : Bool
  pub text : Text

-- `net.ParseIP`, none for nil, and the host of `net.SplitHostPort`, none for an error.
pub record NetPackage : Type 0 where
  pub parse_ip : Text → Option Ip
  pub split_host_port : Text → Option Text

abbrev pub localhost : Text
localhost = codes "127.0.0.1"

abbrev is_some : Option (List ℕ) → Bool
is_some none = false
is_some (some a) = true

-- `ip != nil && !ip.IsLoopback() && ip.To4() != nil`
unfoldable pub is_bridge : Option Ip → Bool
is_bridge none = false
is_bridge (some ip) = not ip.is_loopback && is_some ip.to4

-- One network, its fields split at ":::": whether it has an address of the container, and the address.
abbrev pub has_bridge : NetPackage → List Text → Bool
has_bridge net (name ∷ ip ∷ fields) = is_bridge (net.parse_ip (trim_space ip))
has_bridge net _ = false

abbrev pub ip_field : List Text → Text
ip_field (name ∷ ip ∷ fields) = trim_space ip
ip_field _ = []

abbrev pub split_fields : Text → List Text
split_fields n = split_run b':' 2 0 n

unfoldable pub first_bridge : NetPackage → List Text → Text
unfolding is_bridge
first_bridge net [] = []
first_bridge net (n ∷ ns) =
    let rest = first_bridge net ns in
    if has_bridge net (split_fields n) then ip_field (split_fields n) else rest

unfoldable pub extract_first_container_ip : NetPackage → Text → Text
unfolding first_bridge
extract_first_container_ip net [] = []
extract_first_container_ip net (c ∷ cs) = first_bridge net (split_run b';' 1 0 (c ∷ cs))

abbrev pub is_break : ℕ → Bool
is_break c = c == 10 || c == 13 || c == b',' || c == b';'

unfoldable pub member : Text → List Text → Bool
member k [] = false
member k (s ∷ ss) = text_eq s k || member k ss

-- The endpoints so far, in reverse order, and the ports seen.
pub record Found : Type 0 where
  pub endpoints : List Endpoint
  pub seen_ports : List Text

abbrev pub proto_of : PortPart → Text
proto_of p =
    if int_eq p.container_port (pos 443)
      || int_eq p.container_port (pos 8443)
      || int_eq p.container_port (pos 9443)
      || int_eq p.host_port (pos 443)
      || int_eq p.host_port (pos 8443)
    then codes "https"
    else codes "http"

-- `proto://host:port/`
abbrev pub url_of : Text → Text → ℤ → Text
url_of proto host port = proto ++ codes "://" ++ host ++ codes ":" ++ itoa port ++ codes "/"

-- Where the container's port can be reached: the host, its port, and whether it is exposed there.
unfoldable pub target_of : Text → PortPart → Text × (ℤ × Bool)
target_of container_ip p =
    if not (int_le p.host_port (pos 0))
    then (localhost, (p.host_port, true))
    else if not (text_eq container_ip [])
    then (container_ip, (p.container_port, true))
    else (localhost, (p.container_port, false))

unfoldable pub mapped_endpoint : Text → PortPart → Endpoint
unfolding target_of
mapped_endpoint container_ip p =
    let t = target_of container_ip p in
    record {
      port = p.container_port;
      host_ip = t.0;
      host_port = t.1.0;
      protocol = proto_of p;
      url = url_of (proto_of p) t.0 t.1.0;
      description = describe_port p.container_port;
      is_exposed = t.1.1;
    }

abbrev pub port_key : PortPart → Text
port_key p = itoa p.host_port ++ b':' ∷ itoa p.container_port

abbrev pub add_endpoint : Text → Endpoint → Found → Found
add_endpoint k e f = record { endpoints = e ∷ f.endpoints; seen_ports = k ∷ f.seen_ports }

unfoldable pub add_port : Text → PortPart → Found → Found
unfolding mapped_endpoint member
add_port container_ip p f =
    if not p.is_tcp || int_le p.container_port (pos 0)
    then f
    else if member (port_key p) f.seen_ports
    then f
    else add_endpoint (port_key p) (mapped_endpoint container_ip p) f

unfoldable pub add_part : Text → Text → Found → Found
unfolding add_port
add_part container_ip part f =
    if text_eq part [] then f else add_port container_ip (parse_port_part part) f

unfoldable pub add_ports : Text → List Text → Found → Found
unfolding add_part
add_ports container_ip [] f = f
add_ports container_ip (part ∷ parts) f =
    add_ports container_ip parts (add_part container_ip (trim_space part) f)

abbrev pub is_port_env : Text → Bool
is_port_env env =
    has_prefix env (codes "PORT=")
    || has_prefix env (codes "HTTP_PORT=")
    || has_prefix env (codes "APP_PORT=")

abbrev pub env_endpoint : Text → ℤ → Endpoint
env_endpoint name n = record {
  port = n;
  host_ip = localhost;
  host_port = n;
  protocol = codes "http";
  url = url_of (codes "http") localhost n;
  description = codes "Env " ++ name;
  is_exposed = false;
}

abbrev env_key : ℤ → Text
env_key n = codes "env:" ++ itoa n

unfoldable pub add_env_port : Text → Option ℤ → Found → Found
unfolding member
add_env_port name none f = f
add_env_port name (some n) f =
    if not (int_le n (pos 0)) && int_le n (pos 65535) && not (member (env_key n) f.seen_ports)
    then add_endpoint (env_key n) (env_endpoint name n) f
    else f

unfoldable pub add_env : Text → Found → Found
unfolding add_env_port
add_env env f =
    if is_port_env env
    then add_env_port (cut b'=' env).0 (atoi (trim_space (cut b'=' env).1)) f
    else f

unfoldable pub add_envs : List Text → Found → Found
unfolding add_env
add_envs [] f = f
add_envs (env ∷ envs) f = add_envs envs (add_env (trim_space env) f)

abbrev pub default_endpoint : Text → Endpoint
default_endpoint container_ip = record {
  port = pos 80;
  host_ip = container_ip;
  host_port = pos 80;
  protocol = codes "http";
  url = url_of (codes "http") container_ip (pos 80);
  description = codes "Default Container Web Port";
  is_exposed = false;
}

abbrev pub or_default : Text → List Endpoint → List Endpoint
or_default container_ip (e ∷ es) = e ∷ es
or_default [] [] = []
or_default (c ∷ cs) [] = default_endpoint (c ∷ cs) ∷ []

abbrev pub nothing_found : Found
nothing_found = record { endpoints = []; seen_ports = [] }

unfoldable pub discover_endpoints : NetPackage → Text → Text → List Text → List Endpoint
unfolding add_ports add_envs
discover_endpoints net ports nets envs =
    let ip = extract_first_container_ip net nets in
    or_default ip
      (reverse (add_envs envs (add_ports ip (fields_func is_break ports) nothing_found)).endpoints)
