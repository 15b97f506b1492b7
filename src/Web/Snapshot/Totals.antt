-- ===== src/Web/Snapshot/Totals.antt =====
-- The totals of pkg/web/types.go.
use ctop.Prelude.{ℕ, ◌+◌, ◌≡◌, refl, List, [], ◌∷◌, arith, length, ◌∙◌}
use ctop.Prelude.Int.{add64-swap}
use ctop.Web.Snapshot.{
  ContainerSnapshot, SystemMetrics, no_metrics, add_snapshot, add_snapshots, aggregate_snapshots,
}

counted : SystemMetrics → ℕ
counted sys = sys.running_containers + sys.paused_containers + sys.stopped_containers

add_snapshots-counted :
    (cs : List ContainerSnapshot) (sys : SystemMetrics)
    → counted (add_snapshots cs sys) ≡ length cs + counted sys
unfolding add_snapshots add_snapshot counted
add_snapshots-counted [] sys = omega arith
add_snapshots-counted (c ∷ cs) sys = ground (arith, add_snapshots-counted cs (add_snapshot c sys))

add_snapshots-total :
    (cs : List ContainerSnapshot) (sys : SystemMetrics)
    → (add_snapshots cs sys).total_containers ≡ sys.total_containers
unfolding add_snapshots add_snapshot
add_snapshots-total [] sys = refl
add_snapshots-total (c ∷ cs) sys = ground (arith, add_snapshots-total cs (add_snapshot c sys))

-- The totals count every snapshot once: as running, paused or stopped.
pub aggregate_snapshots-counts :
    (now : ℕ) (cs : List ContainerSnapshot)
    → ((aggregate_snapshots now cs).total_containers ≡ length cs)
      × ((aggregate_snapshots now cs).running_containers
            + (aggregate_snapshots now cs).paused_containers
            + (aggregate_snapshots now cs).stopped_containers
          ≡ length cs)
unfolding aggregate_snapshots counted
aggregate_snapshots-counts now cs =
    let start : SystemMetrics = no_metrics now (length cs) in
    (add_snapshots-total cs start, add_snapshots-counted cs start ∙ omega arith)

-- Two snapshots can be added in either order.
add_snapshot-swap :
    (c d : ContainerSnapshot) (sys : SystemMetrics)
    → add_snapshot c (add_snapshot d sys) ≡ add_snapshot d (add_snapshot c sys)
unfolding add_snapshot
add_snapshot-swap c d sys =
    let cpu = add64-swap sys.total_cpu_util d.cpu_util c.cpu_util in
    let usage = add64-swap sys.total_mem_usage d.mem_usage c.mem_usage in
    let limit = add64-swap sys.total_mem_limit d.mem_limit c.mem_limit in
    let rx = add64-swap sys.total_net_rx_rate d.net_rx_rate c.net_rx_rate in
    let tx = add64-swap sys.total_net_tx_rate d.net_tx_rate c.net_tx_rate in
    let reads = add64-swap sys.total_io_rate_read d.io_rate_read c.io_rate_read in
    let writes = add64-swap sys.total_io_rate_write d.io_rate_write c.io_rate_write in
    ground (arith, cpu, usage, limit, rx, tx, reads, writes)
