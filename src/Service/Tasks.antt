-- ===== src/Service/Tasks.antt =====
-- `ExtractProbeTargets` of pkg/prober/prober.go. `net.JoinHostPort` and whether the machine supports
-- IPv6 are parameters; the set of targets seen is that of the tasks.
pub mod Unique
use ctop.Prelude.{
  ℕ, ◌+◌, Bool, true, false, not, ◌&&◌, ◌||◌, List, [], ◌∷◌, ◌++◌, Option, none, some,
  if◌then◌else◌, ◌==◌,
}
use ctop.Prelude.Texts.{Text, codes, text_eq, trim_space, contains}
use ctop.Prelude.Assoc.{mem}
use ctop.Prelude.Split.{split, split_run, replace_all, last_cut}
use ctop.Service.Discover.{localhost}

pub record TargetTask : Type 0 where
  pub label : Text
  pub target : Text

pub record Network : Type 0 where
  pub supports_ipv6 : Bool
  pub join_host_port : Text → Text → Text

abbrev pub targets : List TargetTask → List Text
targets [] = []
targets (t ∷ ts) = t.target ∷ targets ts

-- A task for a target that has none yet.
unfoldable pub add_task : Text → Text → List TargetTask → List TargetTask
add_task label target tasks =
    if mem target (targets tasks)
    then tasks
    else tasks ++ record { label = label; target = target } ∷ []

abbrev is_ipv6_any : Text → Bool
is_ipv6_any host =
    text_eq host (codes "::") || text_eq host (codes "::1") || text_eq host (codes "[::]")

-- The host that is tried for a published port, and its label.
abbrev pub host_of : Network → Text → Text × Text
host_of net host =
    if is_ipv6_any host
    then if net.supports_ipv6
      then (codes "::1", codes "External (IPv6)")
      else (localhost, codes "External (IPv4 Fallback)")
    else (localhost, codes "External (IPv4)")

unfoldable pub add_host_part : Network → Option (Text × Text) → List TargetTask → List TargetTask
add_host_part net none tasks = tasks
add_host_part net (some (host, port)) tasks =
    add_task (host_of net host).1 (net.join_host_port (host_of net host).0 port) tasks

-- What stands before the first "->" of the line.
unfoldable pub before_arrow : Text → Text
before_arrow [] = []
before_arrow (c ∷ []) = c ∷ []
before_arrow (c ∷ d ∷ cs) =
    let rest = before_arrow (d ∷ cs) in if c == b'-' && d == b'>' then [] else c ∷ rest

unfoldable pub add_line : Network → Text → List TargetTask → List TargetTask
unfolding add_host_part before_arrow
add_line net line tasks =
    if text_eq line []
    then tasks
    else if contains line (codes "->")
    then add_host_part net (last_cut b':' (trim_space (before_arrow line))) tasks
    else tasks

unfoldable pub add_lines : Network → List Text → List TargetTask → List TargetTask
unfolding add_line
add_lines net [] tasks = tasks
add_lines net (line ∷ lines) tasks = add_lines net lines (add_line net (trim_space line) tasks)

abbrev pub add_if_named : Network → Text → Text → Text → List TargetTask → List TargetTask
add_if_named net label [] port tasks = tasks
add_if_named net label (c ∷ host) port tasks =
    add_task label (net.join_host_port (c ∷ host) port) tasks

unfoldable pub add_fields : Network → List Text → List TargetTask → List TargetTask
add_fields net (name ∷ ip ∷ gateway ∷ fields) tasks =
    add_if_named net (name ++ codes " (Gateway)") gateway (codes "53")
      (add_if_named net (name ++ codes " (IP)") ip (codes "80") tasks)
add_fields net (name ∷ ip ∷ []) tasks =
    add_if_named net (name ++ codes " (IP)") ip (codes "80") tasks
add_fields net _ tasks = tasks

unfoldable pub add_entry : Network → Text → List TargetTask → List TargetTask
unfolding add_fields
add_entry net entry tasks =
    if text_eq entry [] then tasks else add_fields net (split_run b':' 2 0 entry) tasks

unfoldable pub add_entries : Network → List Text → List TargetTask → List TargetTask
unfolding add_entry
add_entries net [] tasks = tasks
add_entries net (entry ∷ entries) tasks =
    add_entries net entries (add_entry net (trim_space entry) tasks)

abbrev pub unless_blank : Text → List Text → List Text
unless_blank s parts = if text_eq (trim_space s) [] then [] else parts

unfoldable pub extract_probe_targets : Network → Text → Text → List TargetTask
unfolding add_lines add_entries
extract_probe_targets net ports nets =
    add_entries net (unless_blank nets (split_run b';' 1 0 nets))
      (add_lines net (unless_blank ports (split 10 ports)) [])
