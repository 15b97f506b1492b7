-- ===== src/Lib.antt =====
-- ctop: the logic of the container monitor that the screen and the web server rest on.
--
-- The program lists containers in a terminal and serves the same data over HTTP. A connector keeps
-- `Container` values, whose state the lifecycle methods and the connector change; `Filter` sets which
-- of them are displayed and `Less` orders them, both by the settings of pkg/config; the cursor selects
-- one of the rows. Each refresh is broadcast as an event to the web clients, whose streams end with
-- their sessions. Every web request passes the gate, which asks the session store; the login route asks
-- the rate limiter and creates sessions; the data routes give out masked snapshots, logs and previews of
-- the endpoints that are discovered. Supervised connections to the daemons are aggregated by host, and
-- the audit log keeps a file for each day. For one container the terminal has a log view and a file
-- explorer.
--
-- Files, with the code that they model:
--   Prelude      numbers, lists, Go strings as lists of bytes (Texts, Split), 64-bit integers (Int) and
--                maps as association lists (Assoc).
--   Web          pkg/web. Sessions: `SessionStore`, LoginRateLimiter in RateLimit, Request: where a
--                request comes from, Gate: `corsMiddleware`, Login: `handleAuthLogin`,
--                `handleAuthLogout` and `handleAuthStatus`; Setup: tokens, prefix and address, Stream:
--                `handleStream`, Detail: the data routes, with Provider, Route, Preview and Logs, all
--                of server.go; Snapshot: types.go; Broadcaster: broadcaster.go.
--   Config       pkg/config. Settings: param.go and switch.go, Columns: columns.go, `Init` of main.go.
--   Container    pkg/models/main.go and pkg/container. Lifecycle: main.go, Filter and Sort: sort.go.
--   Cursor       cursor.go.
--   Hist         internal/cwidgets/single/hist.go.
--   LogView      internal/cwidgets/single/logs.go.
--   Explorer     internal/cwidgets/single/explorer.go.
--   WebView      internal/cwidgets/single/webview.go.
--   Sanitize     pkg/sanitize/sanitize.go.
--   Service      pkg/serviceprobe: discover.go and probe.go, and Tasks: pkg/prober.
--   Audit        pkg/audit/audit.go.
--   Connector    pkg/connector: main.go, and Multi: multi.go.
-- A method is a function of the state of its receiver, under a name in lower case with underscores, as
-- `CreateSession` is `create_session`; its mutex makes it one step. The child modules hold the proofs
-- and are named for what they are about, and Tests for runs on concrete values.
--
-- Integers and bounds: times and lengths are natural numbers, and times are nanoseconds of a clock; Go
-- `int` values that can be negative are integers, and the sums that the comparators take wrap at 64
-- bits. The loops are recursions on lists, but for two that take fuel: `split_runes` has the number of
-- runes, one for each chunk, and `digits_of` 20, as many digits as a 64-bit number has. A panic by an
-- index or slice out of range, or by `regexp.MustCompile`, is `none`.
--
-- Parameters, for code that is not in the repository: `net.SplitHostPort` and `net.ParseIP` (Net),
-- package regexp (Regexp), `sort.Sort` (an argument of the refresh), the random source and the decoded
-- body of a login (arguments of the handlers), what the container manager answers, the addresses and
-- paths of packages net and path/filepath (NetPackage, Paths, PathPackage, System), the patterns on
-- commands (CommandPatterns), package net/url (UrlPackage), and what the provider of the web server,
-- the daemons and the probes return.
--
-- Not modelled: drawing on the terminal, the calls of the container daemons and the collectors'
-- arithmetic, HTTP requests and dials of the probes and the redirects that they follow, timers, reports
-- and rendering. Case folding and white space are those of ASCII text. Response headers other than the
-- cookie are left out.
pub mod Prelude
pub mod Web
pub mod Config
pub mod Container
pub mod Cursor
pub mod Hist
pub mod LogView
pub mod Explorer
pub mod WebView
pub mod Sanitize
pub mod Service
pub mod Audit
pub mod Connector
