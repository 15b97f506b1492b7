-- ===== src/Service/Discover/Targets.antt =====
-- Where the endpoints of pkg/serviceprobe/discover.go lie.
use mathlib.Core.List.{reverse}
use ctop.Prelude.{
  ◌≡◌, refl, true, false, not, ◌||◌, List, [], ◌∷◌, Option, none, some, ◌⊎◌, inl, inr, arith,
  Bool-cases, All, All-reverse, map,
}
use ctop.Prelude.Int.{ℤ, pos, int_le, ◌<ℤ◌}
use ctop.Prelude.Texts.{Text, codes, text_eq, trim_space, cut}
use ctop.Prelude.Split.{fields_func, split_run, atoi}
use ctop.Service.Ports.{PortPart, parse_port_part}
use ctop.Service.Discover.{
  Endpoint, NetPackage, Found, localhost, is_bridge, has_bridge, ip_field, split_fields,
  first_bridge, extract_first_container_ip, url_of, target_of, mapped_endpoint, add_port, add_part,
  add_ports, add_env_port, add_env, add_envs, env_endpoint, or_default, nothing_found,
  discover_endpoints, is_break, proto_of, member, port_key,
}

-- The entries of the networks, each the list of its fields.
abbrev pub networks_of : Text → List (List Text)
networks_of [] = []
networks_of (c ∷ cs) = map split_fields (split_run b';' 1 0 (c ∷ cs))

-- The address of one of the networks, its second field, is this: version 4, no loopback.
abbrev pub IsAddress : NetPackage → List (List Text) → Text → Type 0
IsAddress net [] ip = true ≡ false
IsAddress net (fs ∷ rest) ip =
    ((ip_field fs ≡ ip) × (is_bridge (net.parse_ip ip) ≡ true)) ⊎ IsAddress net rest ip

-- Nothing, or an address of the container.
abbrev IsContainerIp : NetPackage → Text → Text → Type 0
IsContainerIp net nets ip = (ip ≡ []) ⊎ IsAddress net (networks_of nets) ip

has_bridge-ip_field :
    (net : NetPackage) (fs : List Text)
    → has_bridge net fs ≡ true
    → is_bridge (net.parse_ip (ip_field fs)) ≡ true
has_bridge-ip_field net [] h = ground arith
has_bridge-ip_field net (a ∷ []) h = ground arith
has_bridge-ip_field net (a ∷ b ∷ fs) h = h

first_bridge-IsAddress :
    (net : NetPackage) (ns : List Text)
    → (first_bridge net ns ≡ []) ⊎ IsAddress net (map split_fields ns) (first_bridge net ns)
unfolding first_bridge
first_bridge-IsAddress net [] = inl refl
first_bridge-IsAddress net (n ∷ ns) = elim (Bool-cases (has_bridge net (split_fields n))) [
  | inl e ↦ rw e (inr (inl (refl, has_bridge-ip_field net (split_fields n) e)))
  | inr e ↦ elim (first_bridge-IsAddress net ns) [
    | inl h ↦ rw e (inl h)
    | inr h ↦ rw e (inr (inr h))
  ]
]

extract_first_container_ip-IsContainerIp :
    (net : NetPackage) (nets : Text) → IsContainerIp net nets (extract_first_container_ip net nets)
unfolding extract_first_container_ip
extract_first_container_ip-IsContainerIp net [] = inl refl
extract_first_container_ip-IsContainerIp net (c ∷ cs) =
    first_bridge-IsAddress net (split_run b';' 1 0 (c ∷ cs))

-- An endpoint on this machine or at the address of one of the networks, over http or https, with positive
-- ports, whose URL names just this host and port.
abbrev pub IsTarget : NetPackage → Text → Endpoint → Type 0
IsTarget net nets e =
    ((e.host_ip ≡ localhost) ⊎ IsAddress net (networks_of nets) e.host_ip)
    × ((e.protocol ≡ codes "http") ⊎ (e.protocol ≡ codes "https"))
    × (pos 0 <ℤ e.port)
    × (pos 0 <ℤ e.host_port)
    × (e.url ≡ url_of e.protocol e.host_ip e.host_port)

proto_of-cases : (p : PortPart) → (proto_of p ≡ codes "http") ⊎ (proto_of p ≡ codes "https")
proto_of-cases p = ground arith

target_of-ports :
    (ip : Text) (p : PortPart)
    → int_le p.container_port (pos 0) ≡ false
    → pos 0 <ℤ (target_of ip p).1.0
unfolding target_of
target_of-ports ip p h = ground arith

target_of-host :
    (net : NetPackage) (nets : Text) (ip : Text) (p : PortPart)
    → IsContainerIp net nets ip
    → ((target_of ip p).0 ≡ localhost) ⊎ IsAddress net (networks_of nets) (target_of ip p).0
unfolding target_of text_eq
target_of-host net nets [] p h = ground arith
target_of-host net nets (c ∷ cs) p (inr h) = ground (arith, h)
target_of-host net nets (c ∷ cs) p (inl h) = ground (arith, h)

mapped_endpoint-IsTarget :
    (net : NetPackage) (nets : Text) (ip : Text) (p : PortPart)
    → IsContainerIp net nets ip
    → int_le p.container_port (pos 0) ≡ false
    → IsTarget net nets (mapped_endpoint ip p)
unfolding mapped_endpoint
mapped_endpoint-IsTarget net nets ip p h c =
    (target_of-host net nets ip p h, proto_of-cases p, ground arith, target_of-ports ip p c, refl)

abbrev AllTargets : NetPackage → Text → Found → Type 0
AllTargets net nets f = All (IsTarget net nets) f.endpoints

add_port-AllTargets :
    (net : NetPackage) (nets : Text) (ip : Text) (p : PortPart) (f : Found)
    → IsContainerIp net nets ip
    → AllTargets net nets f
    → AllTargets net nets (add_port ip p f)
unfolding add_port
add_port-AllTargets net nets ip p f h a =
    elim (Bool-cases (not p.is_tcp || int_le p.container_port (pos 0))) [
      | inl e ↦ rw e a
      | inr e ↦ elim (Bool-cases (member (port_key p) f.seen_ports)) [
        | inl k ↦ rw (e, k) a
        | inr k ↦ rw (e, k) (mapped_endpoint-IsTarget net nets ip p h (ground (arith, e)), a)
      ]
    ]

add_part-AllTargets :
    (net : NetPackage) (nets : Text) (ip part : Text) (f : Found)
    → IsContainerIp net nets ip
    → AllTargets net nets f
    → AllTargets net nets (add_part ip part f)
unfolding add_part
add_part-AllTargets net nets ip part f h a = elim (Bool-cases (text_eq part [])) [
  | inl e ↦ rw e a
  | inr e ↦ rw e (add_port-AllTargets net nets ip (parse_port_part part) f h a)
]

add_ports-AllTargets :
    (net : NetPackage) (nets : Text) (ip : Text) (parts : List Text) (f : Found)
    → IsContainerIp net nets ip
    → AllTargets net nets f
    → AllTargets net nets (add_ports ip parts f)
unfolding add_ports
add_ports-AllTargets net nets ip [] f h a = a
add_ports-AllTargets net nets ip (part ∷ parts) f h a =
    add_ports-AllTargets net nets ip parts (add_part ip (trim_space part) f) h
      (add_part-AllTargets net nets ip (trim_space part) f h a)

env_endpoint-IsTarget :
    (net : NetPackage) (nets : Text) (name : Text) (n : ℤ)
    → pos 0 <ℤ n
    → IsTarget net nets (env_endpoint name n)
env_endpoint-IsTarget net nets name n h = (inl refl, inl refl, h, h, refl)

add_env_port-AllTargets :
    (net : NetPackage) (nets : Text) (name : Text) (port : Option ℤ) (f : Found)
    → AllTargets net nets f
    → AllTargets net nets (add_env_port name port f)
unfolding add_env_port
add_env_port-AllTargets net nets name none f a = a
add_env_port-AllTargets net nets name (some n) f a = elim (Bool-cases (int_le n (pos 0))) [
  | inl e ↦ rw e a
  | inr e ↦ ground (arith, a, e, env_endpoint-IsTarget net nets name n)
]

add_env-AllTargets :
    (net : NetPackage) (nets : Text) (env : Text) (f : Found)
    → AllTargets net nets f
    → AllTargets net nets (add_env env f)
unfolding add_env
add_env-AllTargets net nets env f a =
    let port = atoi (trim_space (cut b'=' env).1) in
    ground (arith, a, add_env_port-AllTargets net nets (cut b'=' env).0 port f a)

add_envs-AllTargets :
    (net : NetPackage) (nets : Text) (envs : List Text) (f : Found)
    → AllTargets net nets f
    → AllTargets net nets (add_envs envs f)
unfolding add_envs
add_envs-AllTargets net nets [] f a = a
add_envs-AllTargets net nets (env ∷ envs) f a =
    add_envs-AllTargets net nets envs (add_env (trim_space env) f)
      (add_env-AllTargets net nets (trim_space env) f a)

or_default-IsTarget :
    (net : NetPackage) (nets : Text) (ip : Text) (es : List Endpoint)
    → IsContainerIp net nets ip
    → All (IsTarget net nets) es
    → All (IsTarget net nets) (or_default ip es)
or_default-IsTarget net nets ip (e ∷ es) h a = a
or_default-IsTarget net nets [] [] h a = tt
or_default-IsTarget net nets (c ∷ cs) [] (inl e) a = ground (arith, e)
or_default-IsTarget net nets (c ∷ cs) [] (inr b) a =
    ((inr b, inl refl, omega arith, omega arith, refl), tt)

-- Every endpoint that `DiscoverEndpoints` finds lies on this machine or at an address that stands
-- second among the fields of an entry of the networks, an IPv4 address and no loopback, speaks http or
-- https, has positive ports, and its URL names just this protocol, host and port.
pub discover_endpoints-IsTarget :
    (net : NetPackage) (ports nets : Text) (envs : List Text)
    → All (IsTarget net nets) (discover_endpoints net ports nets envs)
unfolding discover_endpoints
discover_endpoints-IsTarget net ports nets envs =
    let ip = extract_first_container_ip net nets in
    let known = extract_first_container_ip-IsContainerIp net nets in
    let parts = fields_func is_break ports in
    let found = add_ports ip parts nothing_found in
    let mapped = add_ports-AllTargets net nets ip parts nothing_found known tt in
    or_default-IsTarget net nets ip (reverse (add_envs envs found).endpoints) known (
      All-reverse (IsTarget net nets) (add_envs envs found).endpoints
        (add_envs-AllTargets net nets envs found mapped))
