-- ===== src/Container.antt =====
-- pkg/models/main.go (metrics and metadata) and the state of pkg/container/main.go. Integers are those
-- of Go's 64-bit `int` and `int64`. The row widgets, which only show what is here, are left out.
pub mod Lifecycle
pub mod Filter
pub mod Sort
mod Tests
use ctop.Prelude.{Bool, true, false, List, [], ◌∷◌, Option, none, some, if◌then◌else◌, take}
use ctop.Prelude.Int.{ℤ, pos, negsuc}
use ctop.Prelude.Texts.{Text, codes, text_eq}
use ctop.Prelude.Assoc.{lookup, insert}

abbrev pub Meta : Type 0
Meta = List (Text × Text)

-- The loop of `NewMeta` over keys and values; a last key with no value is left out.
unfoldable pub add_pairs : List Text → Meta → Meta
add_pairs [] m = m
add_pairs (k ∷ []) m = m
add_pairs (k ∷ v ∷ kvs) m = add_pairs kvs (insert k v m)

unfoldable pub new_meta : List Text → Meta
unfolding add_pairs
new_meta kvs = add_pairs kvs []

abbrev pub or_empty : Option Text → Text
or_empty none = []
or_empty (some s) = s

-- `Meta.Get`
unfoldable pub meta_get : Meta → Text → Text
meta_get m k = or_empty (lookup k m)

pub record Metrics : Type 0 where
  pub n_cpus : ℤ
  pub cpu_util : ℤ
  pub net_tx : ℤ
  pub net_rx : ℤ
  pub mem_limit : ℤ
  pub mem_percent : ℤ
  pub mem_usage : ℤ
  pub mem_rss : ℤ
  pub mem_cache : ℤ
  pub mem_swap : ℤ
  pub mem_kernel : ℤ
  pub io_bytes_read : ℤ
  pub io_bytes_write : ℤ
  pub net_tx_rate : ℤ
  pub net_rx_rate : ℤ
  pub io_rate_read : ℤ
  pub io_rate_write : ℤ
  pub pids : ℤ

abbrev minus_one : ℤ
minus_one = negsuc 0

unfoldable pub new_metrics : Metrics
new_metrics = record {
  n_cpus = pos 0;
  cpu_util = minus_one;
  net_tx = minus_one;
  net_rx = minus_one;
  mem_limit = pos 0;
  mem_percent = minus_one;
  mem_usage = minus_one;
  mem_rss = minus_one;
  mem_cache = minus_one;
  mem_swap = minus_one;
  mem_kernel = minus_one;
  io_bytes_read = minus_one;
  io_bytes_write = minus_one;
  net_tx_rate = minus_one;
  net_rx_rate = minus_one;
  io_rate_read = minus_one;
  io_rate_write = minus_one;
  pids = minus_one;
}

-- `collecting` is whether the container's collector runs.
pub record Container : Type 0 where
  pub metrics : Metrics
  pub id : Text
  pub host_id : Text
  pub meta : Meta
  pub display : Bool
  pub collecting : Bool

unfoldable pub new_container : Text → Bool → Container
unfolding new_metrics new_meta
new_container id collecting = record {
  metrics = new_metrics;
  id = id;
  host_id = [];
  meta = new_meta (codes "id" ∷ take 12 id ∷ []);
  display = false;
  collecting = collecting;
}

abbrev pub get_meta : Container → Text → Text
get_meta c k = meta_get c.meta k

unfoldable pub set_meta : Text → Text → Container → Container
set_meta k v c = record c {
  meta = insert k v c.meta;
  host_id = if text_eq k (codes "host") then v else c.host_id;
}
