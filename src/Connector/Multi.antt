-- ===== src/Connector/Multi.antt =====
-- `MultiConnector`, `ParseHostSpec` and `NewMultiDockerConnector` of pkg/connector/multi.go. The connectors
-- of a map are a list in the order in which `range` gives them; `ResolveDockerEndpoint` and the Docker
-- constructors are arguments.
use ctop.Prelude.{
  ◌≡◌, refl, ◌∙◌, Bool, true, false, ◌||◌, List, [], ◌∷◌, ◌++◌, Option, none, some, if◌then◌else◌,
  length, drop, arith, Bool-cases, inl, inr,
}
use ctop.Prelude.Texts.{Text, codes, text_eq, trim_space, has_prefix, trim_prefix}
use ctop.Prelude.Split.{last_cut}
use ctop.Prelude.Assoc.{lookup, insert, lookup-insert}

abbrev or_longer : Text → Text → Option Text → Option Text
or_longer sep s none = if has_prefix s sep then some (drop (length sep) s) else none
or_longer sep s (some rest) = some rest

-- What stands behind the last separator.
unfoldable pub after_last : Text → Text → Option Text
after_last sep [] = none
after_last sep (c ∷ cs) = or_longer sep (c ∷ cs) (after_last sep cs)

abbrev or_all : Text → Option Text → Text
or_all s none = s
or_all s (some t) = t

abbrev before_last : Text → Option (Text × Text) → Text
before_last s none = s
before_last s (some (before, behind)) = before

abbrev has_scheme : Text → Bool
has_scheme spec =
    has_prefix spec (codes "tcp://")
    || has_prefix spec (codes "http://")
    || has_prefix spec (codes "https://")
    || has_prefix spec (codes "unix://")

-- The endpoint and the identifier of the host.
unfoldable pub parse_host_spec : Text → Text → Text × Text
unfolding after_last
parse_host_spec local_endpoint s =
    let spec = trim_space s in
    let host = trim_prefix spec (codes "ssh://") in
    if text_eq spec [] || text_eq spec (codes "local")
    then (local_endpoint, codes "local")
    else if has_prefix spec (codes "ssh://")
    then (spec, before_last host (last_cut b':' host))
    else if has_scheme spec
    then (spec, or_all spec (after_last (codes "://") spec))
    else (spec, spec)

-- `NewDocker`, and `NewDockerWithEndpoint`; none for an error.
pub record Docker (C : Type 0) : Type 0 where
  pub local_endpoint : Text
  pub new_docker : Option C
  pub new_docker_with_endpoint : Text → Text → Option C

abbrev pub or_local : List Text → List Text
or_local [] = codes "local" ∷ []
or_local (s ∷ specs) = s ∷ specs

module _ {C : Type 0} where
  unfoldable pub add_connector : Text → C → List (Text × C) → List (Text × C)
  add_connector host c connectors = insert host c connectors

  -- `all` is what each connector lists, `sorted` the containers' sort.
  unfoldable pub all_containers : {A : Type 0} → (C → List A) → List (Text × C) → List A
  all_containers list [] = []
  all_containers list ((host, c) ∷ rest) = list c ++ all_containers list rest

  unfoldable pub get_all :
      {A : Type 0} → (C → List A) → (List A → List A) → List (Text × C) → List A
  unfolding all_containers
  get_all list sorted connectors = sorted (all_containers list connectors)

  unfoldable pub get_container : {A : Type 0} → (C → Option A) → List (Text × C) → Option A
  get_container find [] = none
  get_container find ((host, c) ∷ rest) =
      let later = get_container find rest in elim (find c) [ none ↦ later | some a ↦ some a ]

  abbrev pub host_id : Docker C → Text → Text
  host_id d spec = (parse_host_spec d.local_endpoint spec).1

  unfoldable pub dial : Docker C → Text → Option C
  dial d spec =
      let endpoint = (parse_host_spec d.local_endpoint spec).0 in
      if text_eq endpoint [] || text_eq spec (codes "local")
      then d.new_docker
      else d.new_docker_with_endpoint endpoint (host_id d spec)

  abbrev then_dial : Option C → (C → Option (List (Text × C))) → Option (List (Text × C))
  then_dial none rest = none
  then_dial (some c) rest = rest c

  -- The first error ends the loop.
  unfoldable pub dial_all : Docker C → List Text → List (Text × C) → Option (List (Text × C))
  unfolding dial add_connector
  dial_all d [] connectors = some connectors
  dial_all d (spec ∷ specs) connectors =
      then_dial (dial d spec) (λ c. dial_all d specs (add_connector (host_id d spec) c connectors))

  unfoldable pub new_multi_docker_connector : Docker C → List Text → Option (List (Text × C))
  unfolding dial_all
  new_multi_docker_connector d specs = dial_all d (or_local specs) []

  -- The connection to the last host with this identifier.
  abbrev newest : Bool → Option C → Option C → Option C
  newest same c (some later) = some later
  newest true c none = c
  newest false c none = none

  unfoldable pub last_dialled : Docker C → Text → List Text → Option C
  last_dialled d k [] = none
  last_dialled d k (spec ∷ specs) =
      newest (text_eq (host_id d spec) k) (dial d spec) (last_dialled d k specs)

  abbrev or_before : Option C → Option C → Option C
  or_before none before = before
  or_before (some c) before = some c

  or_before-insert :
      (host k : Text) (c : C) (later : Option C) (before : List (Text × C))
      → or_before later (lookup k (add_connector host c before))
        ≡ or_before (newest (text_eq host k) (some c) later) (lookup k before)
  unfolding add_connector
  or_before-insert host k c (some d) before = refl
  or_before-insert host k c none before =
      lookup-insert host k c before
      ∙ elim (Bool-cases (text_eq host k)) [ inl e ↦ rw e refl | inr e ↦ rw e refl ]

  then_dial-lookup :
      (m : Option C) (host k : Text) (later : Option C) (before after : List (Text × C))
      (rest : C → Option (List (Text × C)))
      → then_dial m rest ≡ some after
      → ((c : C)
          → rest c ≡ some after
          → lookup k after ≡ or_before later (lookup k (add_connector host c before)))
      → lookup k after ≡ or_before (newest (text_eq host k) m later) (lookup k before)
  then_dial-lookup none host k later before after rest h f = ground (arith, h)
  then_dial-lookup (some c) host k later before after rest h f =
      f c h ∙ or_before-insert host k c later before

  dial_all-lookup :
      (d : Docker C) (k : Text) (specs : List Text) (before after : List (Text × C))
      → dial_all d specs before ≡ some after
      → lookup k after ≡ or_before (last_dialled d k specs) (lookup k before)
  unfolding dial_all last_dialled
  dial_all-lookup d k [] before after h = ground (arith, h)
  dial_all-lookup d k (spec ∷ specs) before after h =
      then_dial-lookup (dial d spec) (host_id d spec) k (last_dialled d k specs) before after
        (λ c. dial_all d specs (add_connector (host_id d spec) c before)) h
        (λ c e. dial_all-lookup d k specs (add_connector (host_id d spec) c before) after e)

  or_before-none : (later : Option C) → or_before later none ≡ later
  or_before-none none = refl
  or_before-none (some c) = refl

  -- Where every host of the list can be dialled, the aggregator has for each identifier the connection of
  -- the last host in the list that it stands for, and no other.
  pub new_multi_docker_connector-lookup :
      (d : Docker C) (k : Text) (specs : List Text) (after : List (Text × C))
      → new_multi_docker_connector d specs ≡ some after
      → lookup k after ≡ last_dialled d k (or_local specs)
  unfolding new_multi_docker_connector lookup
  new_multi_docker_connector-lookup d k specs after h =
      dial_all-lookup d k (or_local specs) [] after h
      ∙ or_before-none (last_dialled d k (or_local specs))
