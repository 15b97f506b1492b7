-- ===== src/Service/Probe.antt =====
-- `isDisallowedProbeTarget` and the tests of `ProbeHTTP` in pkg/serviceprobe/probe.go, before it sends
-- a request. Package net/url is the parameter `parse_url`.
use ctop.Prelude.{
  ℕ, Bool, true, false, not, ◌&&◌, ◌||◌, List, [], ◌∷◌, ◌++◌, Option, none, some, if◌then◌else◌,
  ◌==◌,
}
use ctop.Prelude.Texts.{Text, codes, text_eq, to_lower, trim_space, has_prefix}
use ctop.Prelude.Split.{has_suffix}
use ctop.Service.Discover.{NetPackage, Ip}

abbrev is_metadata_name : Text → Bool
is_metadata_name host =
    text_eq host (codes "metadata.google.internal")
    || text_eq host (codes "metadata")
    || has_suffix host (codes ".metadata.google.internal")

abbrev is_disallowed_v4 : List ℕ → Ip → Bool
is_disallowed_v4 (a ∷ b ∷ bs) ip = (a == 169 && b == 254) || ip.is_unspecified
is_disallowed_v4 _ ip = ip.is_unspecified

abbrev is_disallowed_v6 : Ip → Bool
is_disallowed_v6 ip =
    ip.is_link_local_unicast
    || ip.is_link_local_multicast
    || ip.is_unspecified
    || text_eq ip.text (codes "fd00:ec2::254")

unfoldable pub is_disallowed_ip : Option Ip → Bool
is_disallowed_ip none = false
is_disallowed_ip (some ip) = elim ip.to4 [
  | none ↦ is_disallowed_v6 ip
  | some bytes ↦ is_disallowed_v4 bytes ip
]

abbrev without_port : NetPackage → Text → Text
without_port net host = elim (net.split_host_port host) [ none ↦ host | some h ↦ h ]

unfoldable pub is_disallowed_probe_target : NetPackage → Text → Bool
unfolding is_disallowed_ip
is_disallowed_probe_target net h =
    let host = trim_space (to_lower h) in
    if text_eq host []
    then true
    else if is_metadata_name host
    then true
    else is_disallowed_ip (net.parse_ip (without_port net host))

-- The scheme and the `Hostname()` of a parsed URL, none for an error.
pub record Url : Type 0 where
  pub scheme : Text
  pub hostname : Text

-- Why no request is sent, or the URL and host that it goes to.
pub data Probe : Type 0 where
  invalid_url missing_host blocked : Text → Probe
  request : Text → Text → Probe

abbrev with_scheme : Text → Text
with_scheme target =
    if not (has_prefix target (codes "http://")) && not (has_prefix target (codes "https://"))
    then codes "http://" ++ target
    else target

abbrev check_url : NetPackage → Text → Option Url → Probe
check_url net target none = invalid_url target
check_url net target (some u) =
    if not (text_eq u.scheme (codes "http")) && not (text_eq u.scheme (codes "https"))
    then invalid_url target
    else if text_eq u.hostname []
    then missing_host target
    else if is_disallowed_probe_target net u.hostname
    then blocked target
    else request target u.hostname

unfoldable pub probe_http : NetPackage → (Text → Option Url) → Text → Probe
unfolding is_disallowed_probe_target
probe_http net parse_url target =
    check_url net (with_scheme target) (parse_url (with_scheme target))
