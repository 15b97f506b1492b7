-- ===== src/Config.antt =====
-- pkg/config: the global parameters, switches and columns, and `Init`. The lock makes each function one
-- step on them; the log lines are left out.
pub mod Columns
pub mod Settings
mod Tests
use ctop.Prelude.{List, [], ◌∷◌, map, Bool, true, false, ◌&&◌, not, if◌then◌else◌}
use ctop.Prelude.Texts.{Text, codes, text_eq}
use ctop.Config.Columns.{Column, default_columns}
use ctop.Config.Settings.{Param, Switch, default_params, default_switches}

pub record Config : Type 0 where
  pub params : List Param
  pub switches : List Switch
  pub columns : List Column

-- `env_dir` is `os.Getenv("CTOP_DOWNLOAD_DIR")`.
abbrev init_param : Text → Param → Param
init_param env_dir p =
    if text_eq p.key (codes "downloadDir") && not (text_eq env_dir [])
    then record p { val = env_dir }
    else p

unfoldable pub init : Text → Config
init env_dir = record {
  params = map (init_param env_dir) default_params;
  switches = default_switches;
  columns = default_columns;
}
