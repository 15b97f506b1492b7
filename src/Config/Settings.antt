-- ===== src/Config/Settings.antt =====
-- pkg/config/param.go and pkg/config/switch.go.
pub mod Laws
use ctop.Prelude.{List, [], ◌∷◌, ◌++◌, Bool, true, false, not, Option, none, some, if◌then◌else◌}
use ctop.Prelude.Texts.{Text, codes, text_eq, trim_space}

pub record Param : Type 0 where
  pub key : Text
  pub val : Text
  pub label : Text

abbrev pub default_download_dir : Text
default_download_dir = codes "/tmp"

abbrev pub default_params : List Param
default_params =
    record { key = codes "filterStr"; val = []; label = codes "Container Name or ID Filter" }
    ∷ record { key = codes "sortField"; val = codes "state"; label = codes "Container Sort Field" }
    ∷ record {
      key = codes "columns";
      val = codes "status,name,id,cpu,mem,net,io,pids,uptime";
      label = codes "Enabled Columns";
    }
    ∷ record {
      key = codes "downloadDir";
      val = default_download_dir;
      label = codes "Default Host Download Directory";
    }
    ∷ record {
      key = codes "icons";
      val = codes "unicode";
      label = codes "Icon Style (unicode or nerd)";
    }
    ∷ record {
      key = codes "probeInterval";
      val = codes "5s";
      label = codes "Network Probing Interval";
    }
    ∷ []

unfoldable pub get : Text → List Param → Param
get k [] = record { key = []; val = []; label = [] }
get k (p ∷ ps) = if text_eq p.key k then p else get k ps

unfoldable pub get_val : Text → List Param → Text
unfolding get
get_val k ps = (get k ps).val

unfoldable pub update : Text → Text → List Param → List Param
update k v [] = record { key = k; val = v; label = [] } ∷ []
update k v (p ∷ ps) =
    let rest = update k v ps in if text_eq p.key k then record p { val = v } ∷ ps else p ∷ rest

abbrev pub or_default : Text → Text
or_default [] = default_download_dir
or_default (c ∷ cs) = c ∷ cs

unfoldable pub get_download_dir : List Param → Text
unfolding get_val
get_download_dir ps = or_default (trim_space (get_val (codes "downloadDir") ps))

unfoldable pub set_download_dir : Text → List Param → List Param
unfolding update
set_download_dir dir ps = update (codes "downloadDir") (or_default (trim_space dir)) ps

pub record Switch : Type 0 where
  pub key : Text
  pub val : Bool
  pub label : Text

abbrev pub default_switches : List Switch
default_switches =
    record { key = codes "sortReversed"; val = false; label = codes "Reverse sort order" }
    ∷ record { key = codes "allContainers"; val = true; label = codes "Show all containers" }
    ∷ record {
      key = codes "fullRowCursor";
      val = true;
      label = codes "Highlight entire cursor row (vs. name only)";
    }
    ∷ record { key = codes "enableHeader"; val = true; label = codes "Enable status header" }
    ∷ record {
      key = codes "readOnly";
      val = false;
      label = codes "Read-only inspection mode (disables state modifications)";
    }
    ∷ record {
      key = codes "groupByCompose";
      val = false;
      label = codes "Group containers by Compose project stack";
    }
    ∷ record {
      key = codes "rateMode";
      val = true;
      label = codes "Real-time rate metrics (/s) vs. cumulative totals";
    }
    ∷ record { key = codes "logWrap"; val = false; label = codes "Wrap log lines (vs. truncate)" }
    ∷ []

unfoldable pub get_switch : Text → List Switch → Switch
get_switch k [] = record { key = []; val = false; label = [] }
get_switch k (s ∷ ss) = if text_eq s.key k then s else get_switch k ss

unfoldable pub get_switch_val : Text → List Switch → Bool
unfolding get_switch
get_switch_val k ss = (get_switch k ss).val

-- A write through the pointer that `GetSwitch` returns: to the first switch of this key, or, where
-- there is none, to a fresh value that nothing else holds.
unfoldable pub write_switch : Text → (Bool → Bool) → List Switch → List Switch
write_switch k f [] = []
write_switch k f (s ∷ ss) =
    let rest = write_switch k f ss in
    if text_eq s.key k then record s { val = f s.val } ∷ ss else s ∷ rest

unfoldable pub update_switch : Text → Bool → List Switch → List Switch
unfolding write_switch
update_switch k val ss = write_switch k (λ _. val) ss

unfoldable pub toggle : Text → List Switch → List Switch
unfolding write_switch
toggle k ss = write_switch k not ss
