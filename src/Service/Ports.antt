-- ===== src/Service/Ports.antt =====
-- `parsePortPart` and `describePort` of pkg/serviceprobe/discover.go.
use ctop.Prelude.{Bool, not, ◌||◌, List, [], ◌∷◌, ◌++◌, Option, none, some, if◌then◌else◌}
use ctop.Prelude.Int.{ℤ, pos, int_eq}
use ctop.Prelude.Texts.{Text, codes, trim_space, contains}
use ctop.Prelude.Split.{trim_suffix, split, trim_of, replace_all, atoi, itoa}

-- The host port, the container port, and whether the protocol is TCP.
pub record PortPart : Type 0 where
  pub host_port : ℤ
  pub container_port : ℤ
  pub is_tcp : Bool

abbrev keep_token : Text → List Text → List Text
keep_token [] ts = ts
keep_token (c ∷ cs) ts = (c ∷ cs) ∷ ts

tokens_of : List Text → List Text
tokens_of [] = []
tokens_of (t ∷ ts) = keep_token (trim_of (codes "[]") (trim_space t)) (tokens_of ts)

abbrev two_ports : Option ℤ → Option ℤ → Option ℤ → ℤ × ℤ
two_ports (some h) (some c) alone = (h, c)
two_ports none (some c) alone = (pos 0, c)
two_ports _ none (some h) = (pos 0, h)
two_ports _ none none = (pos 0, pos 0)

-- Of three tokens or more, the last two count, and none alone but the last.
last_ports : Text → List Text → ℤ × ℤ
last_ports h [] = (pos 0, pos 0)
last_ports h (c ∷ []) = two_ports (atoi h) (atoi c) none
last_ports h (c ∷ d ∷ ts) = last_ports c (d ∷ ts)

ports_of : List Text → ℤ × ℤ
unfolding last_ports
ports_of [] = (pos 0, pos 0)
ports_of (t ∷ []) = two_ports none (atoi t) none
ports_of (h ∷ c ∷ []) = two_ports (atoi h) (atoi c) (atoi h)
ports_of (t ∷ h ∷ c ∷ ts) = last_ports h (c ∷ ts)

abbrev part_text : Text → Text
part_text part = replace_all (codes "->") (codes ":") (
    replace_all (codes " -> ") (codes ":")
      (trim_space (trim_suffix (trim_suffix part (codes "/tcp")) (codes "/udp"))))

unfoldable pub parse_port_part : Text → PortPart
unfolding ports_of tokens_of
parse_port_part part =
    let ports = ports_of (tokens_of (split b':' (part_text part))) in
    record {
      host_port = ports.0;
      container_port = ports.1;
      is_tcp = not (contains part (codes "/udp"));
    }

unfoldable pub describe_port : ℤ → Text
describe_port port =
    if int_eq port (pos 80)
    then codes "HTTP Web Root"
    else if int_eq port (pos 443)
    then codes "HTTPS Secure Web"
    else if int_eq port (pos 8080) || int_eq port (pos 8000)
    then codes "HTTP Application Service"
    else if int_eq port (pos 3000)
    then codes "Node / Frontend App"
    else if int_eq port (pos 5000)
    then codes "Flask / Python API"
    else if int_eq port (pos 8008) || int_eq port (pos 8888)
    then codes "Web Dashboard / Admin"
    else if int_eq port (pos 9090)
    then codes "Prometheus Metrics / Web"
    else if int_eq port (pos 9000)
    then codes "FastCGI / SonarQube"
    else if int_eq port (pos 5601)
    then codes "Kibana Dashboard"
    else if int_eq port (pos 3306)
        || int_eq port (pos 5432)
        || int_eq port (pos 6379)
        || int_eq port (pos 27017)
    then codes "Database Port"
    else codes "TCP Port " ++ itoa port
