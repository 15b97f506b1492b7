-- ===== src/Web/Detail.antt =====
-- `handleContainers`, `handleContainerDetail`, `handleExport`, `handleIndex` and `handleMetrics` of
-- pkg/web/server.go. An answer is the data that is written, or an error's status; headers are left
-- out. The parameters of the query are a function, "" for one that is not there; the preview's answer
-- is the endpoint and the path that are probed, that of the probes the targets.
pub mod Answers
pub mod Hiding
use ctop.Prelude.{
  ℕ, Bool, true, false, not, ◌&&◌, ◌||◌, List, [], ◌∷◌, ◌++◌, Option, none, some, if◌then◌else◌,
  ◌==◌, map,
}
use ctop.Prelude.Int.{ℤ, pos}
use ctop.Prelude.Texts.{Text, codes, text_eq, trim_space, contains, has_prefix}
use ctop.Prelude.Split.{equal_fold, contains_any, atoi}
use ctop.Sanitize.{CommandPatterns}
use ctop.Service.Discover.{NetPackage, Endpoint}
use ctop.Service.Tasks.{Network, TargetTask, extract_probe_targets}
use ctop.Web.Request.{Request}
use ctop.Web.Gate.{is_read}
use ctop.Web.Snapshot.{ContainerSnapshot, SystemMetrics, aggregate_snapshots, sanitize_snapshot}
use ctop.Web.Provider.{ContainerProvider, FileProvider, DiffChange, FileEntry, LogEntry, TopResult}
use ctop.Web.Route.{
  View, detail, top, changes, log_stream, logs, files, file, search, probes, proxy, endpoints,
  mutation, detail_path, traverses_path, view_of,
}
use ctop.Web.Preview.{
  raw_net_str, endpoints_of, positive_or, target_port, subpath_of, forbidden, match_endpoint,
  clean_path,
}
use ctop.Web.Logs.{log_limit, collect_logs, download_logs, download_name}

pub data Answer : Type 0 where
  error : ℕ → Answer
  show_all : List ContainerSnapshot → Answer
  show_one : ContainerSnapshot → Answer
  show_top : TopResult → Answer
  show_changes : List DiffChange → Answer
  show_files : List FileEntry → Answer
  show_file : Text → Answer
  show_probes : List TargetTask → Answer
  show_endpoints : List Endpoint → Answer
  preview : Endpoint → Text → Answer
  stream_logs : List LogEntry → Answer
  show_logs : List LogEntry → Answer
  download : Text → Text → Answer
  export : SystemMetrics → List ContainerSnapshot → Answer
  show_metrics : SystemMetrics → Answer
  dashboard : Text → Answer

-- The code that is not in the repository, the time of the request, as text for a file's name and in
-- nanoseconds, and how long the server has been up.
pub record Environment : Type 0 where
  pub patterns : CommandPatterns
  pub net : NetPackage
  pub network : Network
  pub clean : Text → Text
  pub stamp : Text
  pub now : ℕ
  pub uptime_seconds : ℤ

-- The container that an identifier, the start of one, or a name in any case stands for.
abbrev pub is_named : Text → ContainerSnapshot → Bool
is_named id c = text_eq c.id id || has_prefix c.id id || equal_fold c.name id

unfoldable pub find_snapshot : Text → List ContainerSnapshot → Option ContainerSnapshot
find_snapshot id [] = none
find_snapshot id (c ∷ cs) = let rest = find_snapshot id cs in if is_named id c then some c else rest

abbrev pub snapshots_of : Option ContainerProvider → ℕ → List ContainerSnapshot
snapshots_of none i = []
snapshots_of (some p) i = p.get_container_snapshots i

unfoldable pub handle_containers : Environment → Option ContainerProvider → Request → Answer
handle_containers env provider r =
    if not (is_read r)
    then error 405
    else show_all (map (sanitize_snapshot env.patterns) (snapshots_of provider 0))

-- An interface that the provider lacks is 501, an error of its call 500.
abbrev pub or_500 : {A : Type 0} → (A → Answer) → Option A → Answer
or_500 show none = error 500
or_500 show (some a) = show a

abbrev pub or_501 : {A : Type 0} → (A → Answer) → Option A → Answer
or_501 show none = error 501
or_501 show (some f) = show f

abbrev pub or_404 : (ContainerSnapshot → Answer) → Option ContainerSnapshot → Answer
or_404 show none = error 404
or_404 show (some c) = show c

abbrev or_else : Text → Text → Text
or_else [] other = other
or_else (c ∷ cs) other = c ∷ cs

unfoldable pub param : (Text → Text) → Text → Text
param query name = trim_space (query name)

unfoldable pub is_true : (Text → Text) → Text → Bool
is_true query name = text_eq (query name) (codes "true")

unfoldable pub wants_stream : (Text → Text) → Request → Bool
unfolding is_true
wants_stream query r =
    is_true query (codes "stream")
    || contains (r.header (codes "Accept")) (codes "text/event-stream")

unfoldable pub read_logs :
    Environment → ContainerProvider → (Text → Text) → Text → List LogEntry → Answer
unfolding is_true
read_logs env p query id entries =
    let limit = log_limit (query (codes "tail")) in
    if is_true query (codes "download")
    then download (download_name env.stamp (query (codes "name")) id (p.get_container_snapshots 1))
        (download_logs limit 0 entries)
    else show_logs (collect_logs limit [] entries)

unfoldable pub show_log_view :
    Environment → ContainerProvider → (Text → Text) → Bool → Text → Answer
show_log_view env p query streams id =
    or_501
      (λ stream.
        or_500
          (λ entries. if streams then stream_logs entries else read_logs env p query id entries)
          (stream id))
      p.stream_container_logs

unfoldable pub show_dir : FileProvider → (Text → Text) → Text → Answer
unfolding param
show_dir f query id =
    or_500 show_files (f.read_container_dir id (or_else (param query (codes "path")) (codes "/")))

abbrev pub show_content : ContainerProvider → Text → Text → Answer
show_content p id [] = error 400
show_content p id (c ∷ path) =
    or_501 (λ f. or_500 show_file (f.read_container_file id (c ∷ path) 131072)) p.file_provider

abbrev pub search_pattern : (Text → Text) → Text
search_pattern query = or_else (param query (codes "q")) (param query (codes "pattern"))

abbrev pub search_for : ContainerProvider → (Text → Text) → Text → Text → Answer
search_for p query id [] = error 400
search_for p query id (c ∷ pattern) =
    or_501
      (λ f. or_500 show_files (
        f.search_container_files id (or_else (param query (codes "path")) (codes "/")) (c ∷ pattern)
          (positive_or (pos 100) (atoi (query (codes "limit"))))))
      p.file_provider

abbrev pub preview_of : Environment → Text → Option Endpoint → Answer
preview_of env subpath none = error 400
preview_of env subpath (some e) = preview e (clean_path env.clean subpath)

unfoldable pub show_preview : Environment → (Text → Text) → ContainerSnapshot → Answer
show_preview env query snap =
    let es = endpoints_of env.net snap in
    let subpath = subpath_of (query (codes "path")) in
    if contains_any subpath forbidden
    then error 400
    else preview_of env subpath (match_endpoint (target_port (query (codes "port")) es) es)

unfoldable pub show_view :
    Environment → ContainerProvider → (Text → Text) → Request → View → Text → Answer
unfolding show_dir param wants_stream
show_view env p query r log_stream id = show_log_view env p query true id
show_view env p query r logs id = show_log_view env p query (wants_stream query r) id
show_view env p query r top id = or_501 (λ f. or_500 show_top (f id)) p.get_container_top
show_view env p query r changes id = or_501 (λ f. or_500 show_changes (f id)) p.get_container_diff
show_view env p query r files id = or_501 (λ f. show_dir f query id) p.file_provider
show_view env p query r file id = show_content p id (param query (codes "path"))
show_view env p query r search id = search_for p query id (search_pattern query)
show_view env p query r probes id =
    or_404 (λ c. show_probes (extract_probe_targets env.network c.ports (raw_net_str c)))
      (find_snapshot id (p.get_container_snapshots 1))
show_view env p query r endpoints id =
    or_404 (λ c. show_endpoints (endpoints_of env.net c))
      (find_snapshot id (p.get_container_snapshots 1))
show_view env p query r proxy id =
    or_404 (show_preview env query) (find_snapshot id (p.get_container_snapshots 1))
show_view env p query r mutation id = error 405
show_view env p query r detail id =
    or_404 (λ c. show_one (sanitize_snapshot env.patterns c))
      (find_snapshot id (p.get_container_snapshots 1))

abbrev pub is_mutation : View → Bool
is_mutation mutation = true
is_mutation _ = false

abbrev pub show_found :
    Environment
    → ContainerProvider
    → (Text → Text)
    → Request
    → View
    → Text
    → Option ContainerSnapshot
    → Answer
show_found env p query r v id none = error 404
show_found env p query r v id (some c) = show_view env p query r v id

abbrev pub show_container :
    Environment → Option ContainerProvider → (Text → Text) → Request → View × Text → Answer
show_container env none query r (v, id) = if is_mutation v then error 405 else error 503
show_container env (some p) query r (v, id) =
    if is_mutation v
    then error 405
    else show_found env p query r v id (find_snapshot id (p.get_container_snapshots 0))

unfoldable pub handle_container_detail :
    Environment → Text → Option ContainerProvider → (Text → Text) → Request → Answer
handle_container_detail env url_prefix provider query r =
    let path = detail_path url_prefix r.path in
    if not (is_read r)
    then error 405
    else if text_eq path []
    then handle_containers env provider r
    else if traverses_path path
    then error 400
    else show_container env provider query r (view_of path)

unfoldable pub aggregate_metrics : Environment → Option ContainerProvider → SystemMetrics
aggregate_metrics env provider = record (aggregate_snapshots env.now (snapshots_of provider 0)) {
  uptime_seconds = env.uptime_seconds;
}

abbrev export_one : Environment → Text → Option ContainerProvider → Answer
export_one env id provider =
    or_404 (λ c. show_one (sanitize_snapshot env.patterns c))
      (find_snapshot id (snapshots_of provider 0))

abbrev export_or : Environment → Option ContainerProvider → Text → Answer
export_or env provider [] =
    export (aggregate_metrics env provider)
      (map (sanitize_snapshot env.patterns) (snapshots_of provider 1))
export_or env provider (c ∷ id) = export_one env (c ∷ id) provider

unfoldable pub handle_export : Environment → Option ContainerProvider → (Text → Text) → Answer
unfolding param
handle_export env provider query = export_or env provider (param query (codes "container"))

unfoldable pub handle_metrics : Environment → Option ContainerProvider → Answer
handle_metrics env provider = show_metrics (aggregate_metrics env provider)

-- The dashboard is given the prefix that it has to use.
unfoldable pub handle_index : Text → Request → Answer
handle_index url_prefix r =
    if not (text_eq r.path (codes "/"))
      && not (text_eq r.path url_prefix)
      && not (text_eq r.path (url_prefix ++ codes "/"))
    then error 404
    else dashboard url_prefix
