-- ===== src/Audit/Tests.antt =====
-- The audit log over two days.
use ctop.Prelude.{
  ◌≡◌, refl, Bool, true, false, ◌&&◌, List, [], ◌∷◌, ◌++◌, Option, none, some, if◌then◌else◌,
}
use ctop.Prelude.Texts.{Text, codes, text_eq}
use ctop.Audit.{
  Event, System, Moment, State, Logger, new_logger, log, content, compute_dated_path, abs_or,
}
use ctop.Audit.Rotation.{Call, logs, call_all, line_for, contents, IsAppended, call_all-log}

abbrev sys : System
sys = record {
  dir = λ p. codes "/var/log";
  base = λ p. codes "audit.ndjson";
  ext = λ p. codes ".ndjson";
  join = λ d p. d ++ codes "/" ++ p;
  clean = λ p. p;
  abs = λ p. some p;
  marshal = λ e. some e.action;
}

abbrev on : Text → Moment
on date = record { date = date; time = codes "12:00"; opens = true; writes = true; written = 0 }

abbrev did : Text → Event
did action = record {
  timestamp = [];
  level = [];
  category = codes "auth";
  action = action;
  client_ip = [];
  method = [];
  path = [];
  status = 200;
  auth = none;
}

abbrev start : State
start = (
  record {
    base_path = codes "/var/log/audit.ndjson";
    active_date = codes "2024-01-01";
    active_path = codes "/var/log/audit-2024-01-01.ndjson";
    file = some (codes "/var/log/audit-2024-01-01.ndjson");
    closed = false;
  },
  (codes "/var/log/audit-2024-01-01.ndjson", []) ∷ [],
)

started :
    new_logger sys true (on (codes "2024-01-01")) (codes "/var/log/audit.ndjson") [] ≡ some start
unfolding new_logger text_eq ctop.Prelude.Texts.trim_space ctop.Audit.rotate_locked
    compute_dated_path ctop.Prelude.Assoc.insert ctop.Prelude.Split.has_suffix
    ctop.Prelude.Assoc.lookup ctop.Prelude.Split.trim_suffix
started = refl

abbrev login : Call
login = logs (on (codes "2024-01-01")) (did (codes "login"))

call_all-log_example :
    let t = call_all sys (login ∷ []) start in
    let r = log sys (on (codes "2024-01-02")) (did (codes "logout")) t in
    IsAppended
      (compute_dated_path sys (codes "/var/log/audit.ndjson") (codes "2024-01-02"))
      (line_for sys (on (codes "2024-01-02")) (did (codes "logout")))
      (contents t)
      (contents r.0)
      r.1
call_all-log_example =
    call_all-log sys true (on (codes "2024-01-01")) (codes "/var/log/audit.ndjson") [] start
      (login ∷ []) (on (codes "2024-01-02")) (did (codes "logout")) started
