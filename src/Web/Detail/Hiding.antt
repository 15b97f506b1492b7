-- ===== src/Web/Detail/Hiding.antt =====
-- What the data routes of pkg/web/server.go tell of the values of secret keys.
use ctop.Prelude.{
  ℕ, ◌≡◌, refl, ap, Bool, true, List, [], ◌∷◌, Option, none, some, if◌then◌else◌, arith, Bool-cases,
  inl, inr,
}
use mathlib.Core.Path.{fun_ext}
use ctop.Prelude.Texts.{Text}
use ctop.Service.Discover.Secrets.{discover_endpoints-hides}
use ctop.Service.Tasks.{extract_probe_targets}
use ctop.Web.Request.{Request}
use ctop.Web.Snapshot.{ContainerSnapshot, sanitize_snapshot}
use ctop.Web.Snapshot.Masked.{
  SnapshotMatch, AllMatch, sanitize_snapshot-hides, map-sanitize_snapshot,
}
use ctop.Web.Provider.{ContainerProvider, LogEntry}
use ctop.Web.Route.{
  View, detail, top, changes, log_stream, logs, files, file, search, probes, proxy, endpoints,
  mutation, detail_path, view_of,
}
use ctop.Web.Preview.{endpoints_of, raw_net_str}
use ctop.Web.Logs.{name_of_id, download_name}
use ctop.Web.Detail.{
  Answer, error, Environment, is_named, find_snapshot, or_404, show_preview, read_logs,
  show_log_view, show_view, wants_stream, show_probes, show_endpoints, show_one, show_found,
  show_container, is_mutation, handle_containers, handle_container_detail,
}

-- The provider, with other snapshots.
abbrev pub with_snapshots : ContainerProvider → (ℕ → List ContainerSnapshot) → ContainerProvider
with_snapshots p snaps = record p { get_container_snapshots = snaps }

abbrev OptionMatch : Option ContainerSnapshot → Option ContainerSnapshot → Type 0
OptionMatch none none = Unit
OptionMatch (some a) (some b) = SnapshotMatch a b
OptionMatch _ _ = ⊥

SnapshotMatch-is_named :
    (id : Text) (a b : ContainerSnapshot) → SnapshotMatch a b → is_named id a ≡ is_named id b
SnapshotMatch-is_named id a b (same, _, _, _, _) = ap (is_named id) same

find_snapshot-OptionMatch :
    (id : Text) (xs ys : List ContainerSnapshot)
    → AllMatch xs ys
    → OptionMatch (find_snapshot id xs) (find_snapshot id ys)
unfolding find_snapshot
find_snapshot-OptionMatch id [] [] h = tt
find_snapshot-OptionMatch id [] (y ∷ ys) h = elim h [ ]
find_snapshot-OptionMatch id (x ∷ xs) [] h = elim h [ ]
find_snapshot-OptionMatch id (x ∷ xs) (y ∷ ys) (h, hs) = elim (Bool-cases (is_named id y)) [
  | inl e ↦ rw (SnapshotMatch-is_named id x y h, e) h
  | inr e ↦ rw (SnapshotMatch-is_named id x y h, e) (find_snapshot-OptionMatch id xs ys hs)
]

name_of_id-hides :
    (id : Text) (xs ys : List ContainerSnapshot)
    → AllMatch xs ys
    → name_of_id id xs ≡ name_of_id id ys
unfolding name_of_id
name_of_id-hides id [] [] h = refl
name_of_id-hides id [] (y ∷ ys) h = elim h [ ]
name_of_id-hides id (x ∷ xs) [] h = elim h [ ]
name_of_id-hides id (x ∷ xs) (y ∷ ys) ((same, _, _, _, _), hs) =
    ground (arith, ap (λ c. c.id) same, ap (λ c. c.name) same, name_of_id-hides id xs ys hs)

endpoints_of-hides :
    (env : Environment) (a b : ContainerSnapshot)
    → SnapshotMatch a b
    → endpoints_of env.net a ≡ endpoints_of env.net b
unfolding endpoints_of raw_net_str
endpoints_of-hides env a b (same, e, _, _, _) =
    rw (ap (λ c. c.ports) same, ap (λ c. raw_net_str c) same)
      (discover_endpoints-hides env.net b.ports (raw_net_str b) a.env b.env e)

or_404-OptionMatch :
    (show : ContainerSnapshot → Answer) (a b : Option ContainerSnapshot)
    → ((x y : ContainerSnapshot) → SnapshotMatch x y → show x ≡ show y)
    → OptionMatch a b
    → or_404 show a ≡ or_404 show b
or_404-OptionMatch show none none h m = refl
or_404-OptionMatch show none (some y) h m = elim m [ ]
or_404-OptionMatch show (some x) none h m = elim m [ ]
or_404-OptionMatch show (some x) (some y) h m = h x y m

show_preview-hides :
    (env : Environment) (query : Text → Text) (a b : ContainerSnapshot)
    → SnapshotMatch a b
    → show_preview env query a ≡ show_preview env query b
unfolding show_preview
show_preview-hides env query a b h = rw (endpoints_of-hides env a b h) refl

read_logs-hides :
    (env : Environment) (p : ContainerProvider) (snaps : ℕ → List ContainerSnapshot)
    → ((i : ℕ) → AllMatch (p.get_container_snapshots i) (snaps i))
    → (query : Text → Text) (id : Text) (entries : List LogEntry)
    → read_logs env p query id entries ≡ read_logs env (with_snapshots p snaps) query id entries
unfolding read_logs download_name
read_logs-hides env p snaps h query id entries =
    rw (name_of_id-hides id (p.get_container_snapshots 1) (snaps 1) (h 1)) refl

show_log_view-hides :
    (env : Environment) (p : ContainerProvider) (snaps : ℕ → List ContainerSnapshot)
    → ((i : ℕ) → AllMatch (p.get_container_snapshots i) (snaps i))
    → (query : Text → Text) (streams : Bool) (id : Text)
    → show_log_view env p query streams id
      ≡ show_log_view env (with_snapshots p snaps) query streams id
unfolding show_log_view
show_log_view-hides env p snaps h query streams id =
    rw (fun_ext (read_logs-hides env p snaps h query id)) refl

show_view-hides :
    (env : Environment) (p : ContainerProvider) (snaps : ℕ → List ContainerSnapshot)
    → ((i : ℕ) → AllMatch (p.get_container_snapshots i) (snaps i))
    → (query : Text → Text) (r : Request) (v : View) (id : Text)
    → show_view env p query r v id ≡ show_view env (with_snapshots p snaps) query r v id
unfolding show_view raw_net_str
show_view-hides env p snaps h query r log_stream id =
    show_log_view-hides env p snaps h query true id
show_view-hides env p snaps h query r logs id =
    show_log_view-hides env p snaps h query (wants_stream query r) id
show_view-hides env p snaps h query r probes id =
    or_404-OptionMatch
      (λ c. show_probes (extract_probe_targets env.network c.ports (raw_net_str c)))
      (find_snapshot id (p.get_container_snapshots 1)) (find_snapshot id (snaps 1))
      (λ a b m.
        ap (λ c. show_probes (extract_probe_targets env.network c.ports (raw_net_str c))) m.0)
      (find_snapshot-OptionMatch id (p.get_container_snapshots 1) (snaps 1) (h 1))
show_view-hides env p snaps h query r endpoints id =
    or_404-OptionMatch (λ c. show_endpoints (endpoints_of env.net c))
      (find_snapshot id (p.get_container_snapshots 1)) (find_snapshot id (snaps 1))
      (λ a b m. ap show_endpoints (endpoints_of-hides env a b m))
      (find_snapshot-OptionMatch id (p.get_container_snapshots 1) (snaps 1) (h 1))
show_view-hides env p snaps h query r proxy id =
    or_404-OptionMatch (show_preview env query) (find_snapshot id (p.get_container_snapshots 1))
      (find_snapshot id (snaps 1)) (show_preview-hides env query)
      (find_snapshot-OptionMatch id (p.get_container_snapshots 1) (snaps 1) (h 1))
show_view-hides env p snaps h query r detail id =
    or_404-OptionMatch (λ c. show_one (sanitize_snapshot env.patterns c))
      (find_snapshot id (p.get_container_snapshots 1)) (find_snapshot id (snaps 1))
      (λ a b m. ap show_one (sanitize_snapshot-hides env.patterns a b m))
      (find_snapshot-OptionMatch id (p.get_container_snapshots 1) (snaps 1) (h 1))
show_view-hides env p snaps h query r top id = refl
show_view-hides env p snaps h query r changes id = refl
show_view-hides env p snaps h query r files id = refl
show_view-hides env p snaps h query r file id = refl
show_view-hides env p snaps h query r search id = refl
show_view-hides env p snaps h query r mutation id = refl

show_found-hides :
    (env : Environment) (p : ContainerProvider) (snaps : ℕ → List ContainerSnapshot)
    → ((i : ℕ) → AllMatch (p.get_container_snapshots i) (snaps i))
    → (query : Text → Text) (r : Request) (v : View) (id : Text) (a b : Option ContainerSnapshot)
    → OptionMatch a b
    → show_found env p query r v id a ≡ show_found env (with_snapshots p snaps) query r v id b
show_found-hides env p snaps h query r v id none none m = refl
show_found-hides env p snaps h query r v id none (some y) m = elim m [ ]
show_found-hides env p snaps h query r v id (some x) none m = elim m [ ]
show_found-hides env p snaps h query r v id (some x) (some y) m =
    show_view-hides env p snaps h query r v id

show_container-hides :
    (env : Environment) (p : ContainerProvider) (snaps : ℕ → List ContainerSnapshot)
    → ((i : ℕ) → AllMatch (p.get_container_snapshots i) (snaps i))
    → (query : Text → Text) (r : Request) (v : View × Text)
    → show_container env (some p) query r v
      ≡ show_container env (some (with_snapshots p snaps)) query r v
show_container-hides env p snaps h query r (v, id) =
    let a = find_snapshot id (p.get_container_snapshots 0) in
    let b = find_snapshot id (snaps 0) in
    let same = find_snapshot-OptionMatch id (p.get_container_snapshots 0) (snaps 0) (h 0) in
    ap (λ answer. if is_mutation v then error 405 else answer)
      (show_found-hides env p snaps h query r v id a b same)

-- No answer of the route of a container, and none of the list of all, depends on the value of a secret
-- key: a provider whose snapshots differ from another's in such values alone gives the same answers.
pub handle_container_detail-hides :
    (env : Environment) (url_prefix : Text) (p : ContainerProvider)
    (snaps : ℕ → List ContainerSnapshot)
    → ((i : ℕ) → AllMatch (p.get_container_snapshots i) (snaps i))
    → (query : Text → Text) (r : Request)
    → (handle_containers env (some p) r ≡ handle_containers env (some (with_snapshots p snaps)) r)
      × (handle_container_detail env url_prefix (some p) query r
          ≡ handle_container_detail env url_prefix (some (with_snapshots p snaps)) query r)
unfolding handle_container_detail handle_containers
handle_container_detail-hides env url_prefix p snaps h query r =
    let path = detail_path url_prefix r.path in
    let every = map-sanitize_snapshot env.patterns (p.get_container_snapshots 0) (snaps 0) (h 0) in
    (rw every refl, rw (every, show_container-hides env p snaps h query r (view_of path)) refl)
