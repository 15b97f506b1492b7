-- ===== src/Connector/Tests.antt =====
-- The supervisor and the aggregator with numbers for connections.
use ctop.Prelude.{
  ℕ, ◌≡◌, refl, List, [], ◌∷◌, Option, none, some, ◌⊎◌, ◌++◌, inl, inr, length, if◌then◌else◌,
}
use ctop.Prelude.Texts.{Text, codes, text_eq}
use ctop.Prelude.Assoc.{lookup}
use ctop.Connector.{ConnectorSuper, dial_gives, new_connector_super, loop, get}
use ctop.Connector.Supervision.{attempts, loop-reconnects}
use ctop.Connector.Multi.{
  Docker, new_multi_docker_connector, last_dialled, or_local, new_multi_docker_connector-lookup,
}

-- A failed attempt, a connection that is lost, and another failure.
abbrev rough_start : List (ℕ ⊎ Text)
rough_start = inr (codes "no daemon") ∷ inl 1 ∷ inr (codes "refused") ∷ []

loop-reconnects_example :
    (t : ConnectorSuper ℕ) × (u : ConnectorSuper ℕ) × (loop
        (attempts rough_start)
        new_connector_super
      ≡ some t)
    × (get t ≡ inr (codes "refused"))
    × (loop (attempts rough_start ++ dial_gives 2 ∷ []) new_connector_super ≡ some u)
    × (get u ≡ inl (some 2))
loop-reconnects_example = loop-reconnects rough_start 2

abbrev docker : Docker ℕ
docker = record {
  local_endpoint = [];
  new_docker = some 0;
  new_docker_with_endpoint = λ e h. some (length e);
}

abbrev hosts : List Text
hosts = codes "local" ∷ codes "ssh://db:22" ∷ codes "ssh://db:2222" ∷ []

-- Two ports of one host have one identifier, and one connection is lost.
same_host :
    new_multi_docker_connector docker hosts ≡ some ((codes "local", 0) ∷ (codes "db", 13) ∷ [])
unfolding new_multi_docker_connector text_eq ctop.Connector.Multi.parse_host_spec
    ctop.Prelude.Texts.trim_space ctop.Prelude.Texts.has_prefix ctop.Prelude.Assoc.insert
    ctop.Prelude.Split.last_cut ctop.Prelude.Texts.trim_prefix
same_host = refl

new_multi_docker_connector-lookup_example :
    lookup (codes "db") ((codes "local", 0) ∷ (codes "db", 13) ∷ [])
    ≡ last_dialled docker (codes "db") (or_local hosts)
new_multi_docker_connector-lookup_example =
    new_multi_docker_connector-lookup docker (codes "db") hosts
      ((codes "local", 0) ∷ (codes "db", 13) ∷ []) same_host
