-- ===== src/Web/Provider.antt =====
-- What pkg/web asks of the containers' provider, and the data that passes through it. The interfaces
-- that a provider need not have are optional, and so is a result that can be an error.
use ctop.Prelude.{ℕ, Bool, List, Option}
use ctop.Prelude.Int.{ℤ}
use ctop.Prelude.Texts.{Text}
use ctop.Web.Snapshot.{ContainerSnapshot}

pub record DiffChange : Type 0 where
  pub path : Text
  pub kind : Text

pub record FileEntry : Type 0 where
  pub name : Text
  pub path : Text
  pub is_dir : Bool
  pub size : ℤ
  pub mode : Text
  pub mod_time : Text

-- The time stands as it is formatted, none for the zero time.
pub record LogEntry : Type 0 where
  pub timestamp : Option Text
  pub message : Text

pub record TopResult : Type 0 where
  pub titles : List Text
  pub processes : List (List Text)

pub record FileProvider : Type 0 where
  pub read_container_dir : Text → Text → Option (List FileEntry)
  pub read_container_file : Text → Text → ℕ → Option Text
  pub search_container_files : Text → Text → Text → ℤ → Option (List FileEntry)

-- `get_container_snapshots i` is what the call number `i` of one request returns, and
-- `stream_container_logs` gives the entries that arrive before the context ends, the reader's timer
-- fires or the channel is closed.
pub record ContainerProvider : Type 0 where
  pub get_container_snapshots : ℕ → List ContainerSnapshot
  pub get_container_top : Option (Text → Option TopResult)
  pub get_container_diff : Option (Text → Option (List DiffChange))
  pub file_provider : Option FileProvider
  pub stream_container_logs : Option (Text → Option (List LogEntry))
