-- ===== src/Web/Tests/Data.antt =====
-- The data routes, the stream and the token file on concrete inputs.
use ctop.Prelude.{
  ℕ, ◌≡◌, refl, Bool, true, false, List, [], ◌∷◌, ◌++◌, Option, none, some, inl, inr, ltb, ◌==◌,
  if◌then◌else◌, ◌&&◌,
}
use ctop.Prelude.Int.{pos}
use ctop.Prelude.Texts.{Text, codes, text_eq, cut, has_prefix, trim_space}
use ctop.Sanitize.{Pattern, CommandPatterns}
use ctop.Service.Discover.{NetPackage, Ip, Endpoint}
use ctop.Web.Sessions.{SessionStore, revoke_session}
use ctop.Web.Broadcaster.{TelemetryEvent, new_broadcaster}
use ctop.Web.Request.{Request}
use ctop.Web.Gate.{Server}
use ctop.Web.Snapshot.{ContainerSnapshot, NetworkInfo}
use ctop.Web.Snapshot.Masked.{AllMatch}
use ctop.Web.Provider.{ContainerProvider}
use ctop.Service.Ports.{describe_port}
use ctop.Web.Detail.{Answer, Environment, error, handle_containers, handle_container_detail}
use ctop.Web.Detail.Hiding.{with_snapshots, handle_container_detail-hides}
use ctop.Web.Stream.{Wake, Cause, tick, arrival, handle_stream}
use ctop.Web.Stream.Sessions.{handle_stream-revoked}
use ctop.Web.Setup.{
  Paths, Disk, target_path, write_secure_token_file, read_secure_token_file, enable_auth_with_token,
}
use ctop.Web.Setup.Tokens.{read_secure_token_file-write}
use ctop.Web.Tests.{two_sessions}

abbrev no_pattern : Pattern
no_pattern = record { replace_all = λ f s. s; submatch = λ s. [] }

-- Addresses start with "1"; those that start with "127." are loopback.
abbrev ip_of : Text → Ip
ip_of s = record {
  is_loopback = has_prefix s (codes "127.");
  to4 = some (172 ∷ 17 ∷ 0 ∷ 2 ∷ []);
  is_unspecified = false;
  is_link_local_unicast = false;
  is_link_local_multicast = false;
  text = s;
}

abbrev net_package : NetPackage
net_package = record {
  parse_ip = λ s. if has_prefix s (codes "1") then some (ip_of s) else none;
  split_host_port = λ s. some (cut b':' s).0;
}

abbrev env : Environment
env = record {
  patterns = record {
    run_flag = no_pattern;
    compose_item = no_pattern;
    compose_entry = no_pattern;
  };
  net = net_package;
  network = record { supports_ipv6 = false; join_host_port = λ h p. h ++ codes ":" ++ p };
  clean = λ s. s;
  stamp = codes "20240101_000000";
  now = 5;
  uptime_seconds = pos 60;
}

abbrev bridge : NetworkInfo
bridge = record {
  name = codes "bridge";
  ip_address = codes "172.17.0.2";
  gateway = codes "172.17.0.1";
  mac = [];
  prefix_len = pos 16;
}

-- A container with a port that is not published and one secret variable.
abbrev web : Text → ContainerSnapshot
web secret = record {
  id = codes "abc";
  name = codes "web";
  image = [];
  image_id = [];
  image_arch = [];
  image_size = [];
  image_layers = [];
  image_author = [];
  image_created = [];
  image_docker_ver = [];
  image_labels = [];
  image_env = [];
  image_cmd = [];
  image_entrypoint = [];
  image_work_dir = [];
  image_user = [];
  image_volumes = [];
  image_ports = [];
  generated_run_cmd = [];
  generated_compose = [];
  state = codes "running";
  health = [];
  host = [];
  created = [];
  uptime = [];
  cpu_util = pos 1;
  mem_usage = pos 0;
  mem_limit = pos 0;
  mem_percent = pos 0;
  mem_rss = pos 0;
  mem_cache = pos 0;
  net_rx = pos 0;
  net_tx = pos 0;
  net_rx_rate = pos 0;
  net_tx_rate = pos 0;
  io_bytes_read = pos 0;
  io_bytes_write = pos 0;
  io_rate_read = pos 0;
  io_rate_write = pos 0;
  pids = pos 0;
  ips = [];
  ports = codes "80/tcp";
  web_port = [];
  command = [];
  entrypoint = [];
  work_dir = [];
  user = [];
  restart_pol = [];
  mem_limit_str = [];
  cpu_limit = [];
  pids_limit = [];
  privileged = [];
  readonly_rootfs = [];
  cap_add = [];
  cap_drop = [];
  security_opt = [];
  exit_code = [];
  oom_killed = [];
  health_status = [];
  health_test = [];
  health_interval = [];
  health_timeout = [];
  health_retries = [];
  env = (codes "DB_PASSWORD=" ++ secret) ∷ codes "PORT=3000" ∷ [];
  labels = [];
  mounts = [];
  networks = bridge ∷ [];
  timestamp = 0;
}

abbrev provider : ContainerProvider
provider = record {
  get_container_snapshots = λ i. web (codes "a") ∷ [];
  get_container_top = none;
  get_container_diff = none;
  file_provider = none;
  stream_container_logs = none;
}

abbrev get_request : Text → Request
get_request path = record {
  method = codes "GET";
  path = path;
  raw_path = [];
  header = λ name. [];
  tls = true;
  remote_addr = codes "10.0.0.1:5000";
  cookie = none;
  query_token = [];
  query_auth = [];
}

abbrev no_query : Text → Text
no_query name = []

abbrev asked : Request
asked = get_request (codes "/api/v1/containers/web/proxy")

abbrev target : Endpoint
target = record {
  port = pos 80;
  host_ip = codes "172.17.0.2";
  host_port = pos 80;
  protocol = codes "http";
  url = codes "http://172.17.0.2:80/";
  description = describe_port (pos 80);
  is_exposed = true;
}

abbrev other : ℕ → List ContainerSnapshot
other i = web (codes "b") ∷ []

other-AllMatch : (i : ℕ) → AllMatch (provider.get_container_snapshots i) (other i)
unfolding trim_space ctop.Sanitize.key_of cut ctop.Sanitize.is_sensitive_key
    ctop.Prelude.Texts.contains ctop.Prelude.Texts.to_lower text_eq
other-AllMatch i = ((refl, (inr (refl, refl, refl), (inl refl, tt)), tt, tt, tt), tt)

handle_container_detail-hides_example :
    (handle_containers env (some provider) (get_request (codes "/api/v1/containers"))
      ≡ handle_containers env
          (some (with_snapshots provider other))
          (get_request (codes "/api/v1/containers")))
    × (handle_container_detail env []
          (some provider)
          no_query
          (get_request (codes "/api/v1/containers"))
        ≡ handle_container_detail env []
            (some (with_snapshots provider other))
            no_query
            (get_request (codes "/api/v1/containers")))
handle_container_detail-hides_example =
    handle_container_detail-hides env [] provider other other-AllMatch no_query
      (get_request (codes "/api/v1/containers"))

abbrev event : TelemetryEvent ℕ
event = record { timestamp = []; payload = 3 }

abbrev wake_at : ℕ → SessionStore → Cause ℕ → Wake ℕ
wake_at now store cause = record { now = now; store = store; cause = cause }

handle_stream-revoked_example :
    handle_stream 7 event
      (some (codes "a"))
      (wake_at 30 two_sessions tick
        ∷ wake_at 40 (revoke_session (codes "a") two_sessions) (arrival event)
        ∷ wake_at 50 two_sessions tick
        ∷ [])
      new_broadcaster
    ≡ handle_stream 7 event (some (codes "a")) (wake_at 30 two_sessions tick ∷ []) new_broadcaster
handle_stream-revoked_example =
    handle_stream-revoked 7 event b'a' [] new_broadcaster (wake_at 30 two_sessions tick ∷ [])
      (wake_at 50 two_sessions tick ∷ [])
      (wake_at 40 (revoke_session (codes "a") two_sessions) (arrival event)) two_sessions refl

abbrev paths : Paths
paths = record {
  dir = λ p. codes "/etc";
  clean = λ p. p;
  join = λ d p. d ++ codes "/" ++ p;
  user_config_dir = none;
  user_home_dir = none;
  temp_dir = codes "/tmp";
}

abbrev empty_disk : Disk
empty_disk = record { files = []; can_make_dir = λ d. true; can_write = λ p. true }

abbrev token : Text
token = codes "  0123456789abcdef0123456789abcdef0123456789abcdef0123456789abcdef "

abbrev bare_server : Server
bare_server = record {
  url_prefix = [];
  auth_token = [];
  session_store = two_sessions;
  rate_limiter = ctop.Web.RateLimit.new_login_rate_limiter (pos 1) (pos 60);
}

read_secure_token_file-write_example :
    (read_secure_token_file paths
        (codes "/etc/token")
        (write_secure_token_file paths (codes "/etc/token") token empty_disk).0
      ≡ some (trim_space token))
    × (enable_auth_with_token (trim_space token) bare_server
        ≡ some (record bare_server { auth_token = trim_space token }))
unfolding write_secure_token_file target_path trim_space
read_secure_token_file-write_example =
    read_secure_token_file-write paths (codes "/etc/token") token (codes "/etc/token") empty_disk
      bare_server refl refl refl
