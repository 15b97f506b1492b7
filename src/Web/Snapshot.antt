-- ===== src/Web/Snapshot.antt =====
-- Container snapshots of pkg/web/types.go with their totals, and `SanitizeSnapshot` of
-- pkg/web/server.go. A time is a number of nanoseconds.
pub mod Totals
pub mod Masked
use ctop.Prelude.{ℕ, ◌+◌, Bool, true, false, List, [], ◌∷◌, if◌then◌else◌, length}
use ctop.Prelude.Int.{ℤ, pos, add64}
use ctop.Prelude.Texts.{Text, codes, text_eq}
use ctop.Sanitize.{CommandPatterns, mask_env_list, mask_labels, sanitize_command_string}

pub record MountInfo : Type 0 where
  pub destination : Text
  pub source : Text
  pub type : Text
  pub mode : Text
  pub driver : Text

pub record NetworkInfo : Type 0 where
  pub name : Text
  pub ip_address : Text
  pub gateway : Text
  pub mac : Text
  pub prefix_len : ℤ

pub record ContainerSnapshot : Type 0 where
  pub id : Text
  pub name : Text
  pub image : Text
  pub image_id : Text
  pub image_arch : Text
  pub image_size : Text
  pub image_layers : Text
  pub image_author : Text
  pub image_created : Text
  pub image_docker_ver : Text
  pub image_labels : List (Text × Text)
  pub image_env : List Text
  pub image_cmd : Text
  pub image_entrypoint : Text
  pub image_work_dir : Text
  pub image_user : Text
  pub image_volumes : Text
  pub image_ports : Text
  pub generated_run_cmd : Text
  pub generated_compose : Text
  pub state : Text
  pub health : Text
  pub host : Text
  pub created : Text
  pub uptime : Text
  pub cpu_util : ℤ
  pub mem_usage : ℤ
  pub mem_limit : ℤ
  pub mem_percent : ℤ
  pub mem_rss : ℤ
  pub mem_cache : ℤ
  pub net_rx : ℤ
  pub net_tx : ℤ
  pub net_rx_rate : ℤ
  pub net_tx_rate : ℤ
  pub io_bytes_read : ℤ
  pub io_bytes_write : ℤ
  pub io_rate_read : ℤ
  pub io_rate_write : ℤ
  pub pids : ℤ
  pub ips : Text
  pub ports : Text
  pub web_port : Text
  pub command : Text
  pub entrypoint : Text
  pub work_dir : Text
  pub user : Text
  pub restart_pol : Text
  pub mem_limit_str : Text
  pub cpu_limit : Text
  pub pids_limit : Text
  pub privileged : Text
  pub readonly_rootfs : Text
  pub cap_add : Text
  pub cap_drop : Text
  pub security_opt : Text
  pub exit_code : Text
  pub oom_killed : Text
  pub health_status : Text
  pub health_test : Text
  pub health_interval : Text
  pub health_timeout : Text
  pub health_retries : Text
  pub env : List Text
  pub labels : List (Text × Text)
  pub mounts : List MountInfo
  pub networks : List NetworkInfo
  pub timestamp : ℕ

pub record SystemMetrics : Type 0 where
  pub total_containers : ℕ
  pub running_containers : ℕ
  pub paused_containers : ℕ
  pub stopped_containers : ℕ
  pub total_cpu_util : ℤ
  pub total_mem_usage : ℤ
  pub total_mem_limit : ℤ
  pub total_net_rx_rate : ℤ
  pub total_net_tx_rate : ℤ
  pub total_io_rate_read : ℤ
  pub total_io_rate_write : ℤ
  pub uptime_seconds : ℤ
  pub timestamp : ℕ

abbrev pub no_metrics : ℕ → ℕ → SystemMetrics
no_metrics now n = record {
  total_containers = n;
  running_containers = 0;
  paused_containers = 0;
  stopped_containers = 0;
  total_cpu_util = pos 0;
  total_mem_usage = pos 0;
  total_mem_limit = pos 0;
  total_net_rx_rate = pos 0;
  total_net_tx_rate = pos 0;
  total_io_rate_read = pos 0;
  total_io_rate_write = pos 0;
  uptime_seconds = pos 0;
  timestamp = now;
}

abbrev add_running : ContainerSnapshot → SystemMetrics → SystemMetrics
add_running c sys = record sys {
  running_containers = sys.running_containers + 1;
  total_cpu_util = add64 sys.total_cpu_util c.cpu_util;
  total_mem_usage = add64 sys.total_mem_usage c.mem_usage;
  total_mem_limit = add64 sys.total_mem_limit c.mem_limit;
  total_net_rx_rate = add64 sys.total_net_rx_rate c.net_rx_rate;
  total_net_tx_rate = add64 sys.total_net_tx_rate c.net_tx_rate;
  total_io_rate_read = add64 sys.total_io_rate_read c.io_rate_read;
  total_io_rate_write = add64 sys.total_io_rate_write c.io_rate_write;
}

abbrev add_paused : ContainerSnapshot → SystemMetrics → SystemMetrics
add_paused c sys = record sys {
  paused_containers = sys.paused_containers + 1;
  total_mem_usage = add64 sys.total_mem_usage c.mem_usage;
  total_mem_limit = add64 sys.total_mem_limit c.mem_limit;
}

unfoldable pub add_snapshot : ContainerSnapshot → SystemMetrics → SystemMetrics
add_snapshot c sys =
    if text_eq c.state (codes "running")
    then add_running c sys
    else if text_eq c.state (codes "paused")
    then add_paused c sys
    else record sys { stopped_containers = sys.stopped_containers + 1 }

unfoldable pub add_snapshots : List ContainerSnapshot → SystemMetrics → SystemMetrics
unfolding add_snapshot
add_snapshots [] sys = sys
add_snapshots (c ∷ cs) sys = add_snapshots cs (add_snapshot c sys)

unfoldable pub aggregate_snapshots : ℕ → List ContainerSnapshot → SystemMetrics
unfolding add_snapshots
aggregate_snapshots now cs = add_snapshots cs (no_metrics now (length cs))

abbrev pub clean_command : CommandPatterns → Text → Text
clean_command p [] = []
clean_command p (c ∷ cs) = sanitize_command_string p (c ∷ cs)

unfoldable pub sanitize_snapshot : CommandPatterns → ContainerSnapshot → ContainerSnapshot
sanitize_snapshot p snap = record snap {
  env = mask_env_list snap.env;
  image_env = mask_env_list snap.image_env;
  labels = mask_labels snap.labels;
  image_labels = mask_labels snap.image_labels;
  generated_run_cmd = clean_command p snap.generated_run_cmd;
  generated_compose = clean_command p snap.generated_compose;
}
