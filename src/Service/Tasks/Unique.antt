-- ===== src/Service/Tasks/Unique.antt =====
-- The targets of pkg/prober/prober.go.
use ctop.Prelude.{◌≡◌, refl, ap, List, [], ◌∷◌, ◌++◌, Option, none, some, Bool-cases, inl, inr}
use ctop.Prelude.Texts.{Text, codes, text_eq, trim_space, contains}
use ctop.Prelude.Split.{split, split_run, last_cut}
use ctop.Prelude.Assoc.{mem, Distinct, Distinct-concat}
use ctop.Service.Tasks.{
  TargetTask, Network, targets, add_task, host_of, add_host_part, before_arrow, add_line, add_lines,
  add_if_named, add_fields, add_entry, add_entries, unless_blank, extract_probe_targets,
}

abbrev pub IsUnique : List TargetTask → Type 0
IsUnique ts = Distinct (targets ts)

targets-append : (ts us : List TargetTask) → targets (ts ++ us) ≡ targets ts ++ targets us
targets-append [] us = refl
targets-append (t ∷ ts) us = ap (◌∷◌ t.target) (targets-append ts us)

add_task-IsUnique :
    (label target : Text) (ts : List TargetTask) → IsUnique ts → IsUnique (add_task label target ts)
unfolding add_task
add_task-IsUnique label target ts h = elim (Bool-cases (mem target (targets ts))) [
  | inl e ↦ rw e h
  | inr e ↦
      rw (e, targets-append ts (record { label = label; target = target } ∷ []))
        (Distinct-concat target (targets ts) h e)
]

add_host_part-IsUnique :
    (net : Network) (part : Option (Text × Text)) (ts : List TargetTask)
    → IsUnique ts
    → IsUnique (add_host_part net part ts)
unfolding add_host_part
add_host_part-IsUnique net none ts h = h
add_host_part-IsUnique net (some (host, port)) ts h =
    add_task-IsUnique (host_of net host).1 (net.join_host_port (host_of net host).0 port) ts h

add_line-IsUnique :
    (net : Network) (line : Text) (ts : List TargetTask)
    → IsUnique ts
    → IsUnique (add_line net line ts)
unfolding add_line
add_line-IsUnique net line ts h = elim (Bool-cases (text_eq line [])) [
  | inl e ↦ rw e h
  | inr e ↦ elim (Bool-cases (contains line (codes "->"))) [
    | inl k ↦
        rw (e, k) (add_host_part-IsUnique net (last_cut b':' (trim_space (before_arrow line))) ts h)
    | inr k ↦ rw (e, k) h
  ]
]

add_lines-IsUnique :
    (net : Network) (lines : List Text) (ts : List TargetTask)
    → IsUnique ts
    → IsUnique (add_lines net lines ts)
unfolding add_lines
add_lines-IsUnique net [] ts h = h
add_lines-IsUnique net (l ∷ lines) ts h =
    add_lines-IsUnique net lines (add_line net (trim_space l) ts)
      (add_line-IsUnique net (trim_space l) ts h)

add_if_named-IsUnique :
    (net : Network) (label host port : Text) (ts : List TargetTask)
    → IsUnique ts
    → IsUnique (add_if_named net label host port ts)
add_if_named-IsUnique net label [] port ts h = h
add_if_named-IsUnique net label (c ∷ host) port ts h =
    add_task-IsUnique label (net.join_host_port (c ∷ host) port) ts h

add_fields-IsUnique :
    (net : Network) (fields : List Text) (ts : List TargetTask)
    → IsUnique ts
    → IsUnique (add_fields net fields ts)
unfolding add_fields
add_fields-IsUnique net [] ts h = h
add_fields-IsUnique net (name ∷ []) ts h = h
add_fields-IsUnique net (name ∷ ip ∷ []) ts h =
    add_if_named-IsUnique net (name ++ codes " (IP)") ip (codes "80") ts h
add_fields-IsUnique net (name ∷ ip ∷ gateway ∷ fields) ts h =
    let with_ip = add_if_named net (name ++ codes " (IP)") ip (codes "80") ts in
    add_if_named-IsUnique net (name ++ codes " (Gateway)") gateway (codes "53") with_ip
      (add_if_named-IsUnique net (name ++ codes " (IP)") ip (codes "80") ts h)

add_entry-IsUnique :
    (net : Network) (entry : Text) (ts : List TargetTask)
    → IsUnique ts
    → IsUnique (add_entry net entry ts)
unfolding add_entry
add_entry-IsUnique net entry ts h = elim (Bool-cases (text_eq entry [])) [
  | inl e ↦ rw e h
  | inr e ↦ rw e (add_fields-IsUnique net (split_run b':' 2 0 entry) ts h)
]

add_entries-IsUnique :
    (net : Network) (es : List Text) (ts : List TargetTask)
    → IsUnique ts
    → IsUnique (add_entries net es ts)
unfolding add_entries
add_entries-IsUnique net [] ts h = h
add_entries-IsUnique net (e ∷ es) ts h =
    add_entries-IsUnique net es (add_entry net (trim_space e) ts)
      (add_entry-IsUnique net (trim_space e) ts h)

-- No target is probed twice.
pub extract_probe_targets-IsUnique :
    (net : Network) (ports nets : Text) → IsUnique (extract_probe_targets net ports nets)
unfolding extract_probe_targets
extract_probe_targets-IsUnique net ports nets =
    let lines = unless_blank ports (split 10 ports) in
    add_entries-IsUnique net (unless_blank nets (split_run b';' 1 0 nets)) (add_lines net lines [])
      (add_lines-IsUnique net lines [] tt)
