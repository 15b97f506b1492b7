-- ===== src/Web/Detail/Answers.antt =====
-- What the data routes of pkg/web/server.go answer.
use ctop.Prelude.{◌≡◌, true, Option, none, some}
use ctop.Prelude.Texts.{Text, codes, has_prefix}
use ctop.Service.Discover.{Endpoint}
use ctop.Service.Discover.Targets.{IsTarget}
use ctop.Web.Request.{Request}
use ctop.Web.Snapshot.{ContainerSnapshot}
use ctop.Web.Provider.{ContainerProvider}
use ctop.Web.Preview.{raw_net_str}
use ctop.Web.Detail.{Answer, Environment, preview, find_snapshot, snapshots_of}

-- A preview goes to an endpoint with the property, with a path from the root.
abbrev IsSafe : (Endpoint → Type 0) → Answer → Type 0
IsSafe P (preview e path) = P e × (has_prefix path (codes "/") ≡ true)
IsSafe P _ = Unit

-- A target of the container that is found under the identifier when the request is answered.
abbrev pub IsTargetOf : Environment → Option ContainerProvider → Text → Endpoint → Type 0
IsTargetOf env provider id e =
    (c : ContainerSnapshot) × (find_snapshot id (snapshots_of provider 1) ≡ some c)
    × IsTarget env.net (raw_net_str c) e

abbrev OptionAll : {A : Type 0} → (A → Type 0) → Option A → Type 0
OptionAll P none = Unit
OptionAll P (some a) = P a
