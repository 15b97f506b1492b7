-- ===== src/WebView.antt =====
-- `WebView` of internal/cwidgets/single/webview.go: the container's web endpoints with the one selected,
-- the path, and the page shown. A probe runs in the background: `answered` is what it does when it has
-- its answer. Package net/url, the probe's answers and the rendering of a body are parameters. Drawing
-- is left out.
pub mod Probes
pub mod Selection
mod Tests
use ctop.Prelude.{
  ℕ, zero, suc, ◌+◌, ◌-◌, ◌%◌, Bool, true, false, not, ◌&&◌, ◌||◌, List, [], ◌∷◌, ◌++◌, Option,
  none, some, if◌then◌else◌, ltb, leb, length, get_elem?, ◌==◌,
}
use ctop.Prelude.Int.{ℤ, pos, ◌+ℤ◌, ◌-ℤ◌, int_eq, int_lt, int_le}
use ctop.Prelude.Texts.{Text, codes, text_eq, trim_space, has_prefix, trim_prefix, cut}
use ctop.Prelude.Split.{atoi, itoa}
use ctop.Service.Discover.{Endpoint, NetPackage, discover_endpoints, url_of, localhost}

-- What the widget asks of a parsed URL.
pub record Url : Type 0 where
  pub scheme : Text
  pub hostname : Text
  pub port : Text
  pub request_uri : Text

-- `url.Parse`, and the base with another `Path`, printed; none for a URL that does not parse.
pub record UrlPackage : Type 0 where
  pub parse : Text → Option Url
  pub with_path : Text → Text → Option Text

pub data ViewMode : Type 0 where
  mode_rendered mode_headers mode_raw : ViewMode

-- `R` is the type of the answers of a probe, `D` that of rendered documents.
pub record WebView (R D : Type 0) : Type 0 where
  pub container_id : Text
  pub container_name : Text
  pub endpoints : List Endpoint
  pub selected_ep : ℕ
  pub custom_path : Text
  pub mode : ViewMode
  pub probe_res : Option R
  pub rendered_doc : Option D
  pub scroll_offset : ℤ
  pub is_loading : Bool
  pub probe_seq : ℕ
  pub last_probed_at : Option ℕ

-- The view, and the probes that it has started, the newest first: each its number and its target.
pub record Running (R D : Type 0) : Type 0 where
  pub view : WebView R D
  pub probes : List (ℕ × Text)

abbrev pub url_at : List Endpoint → ℕ → Option Text
url_at [] i = none
url_at (e ∷ es) zero = some e.url
url_at (e ∷ es) (suc i) = url_at es i

-- The port of the selected endpoint, -1 for none.
abbrev pub port_at : List Endpoint → ℕ → ℤ
port_at [] i = ℤ.negsuc 0
port_at (e ∷ es) zero = e.port
port_at (e ∷ es) (suc i) = port_at es i

abbrev pub index_onto : Bool → Option ℕ → Option ℕ
index_onto true rest = some 0
index_onto false none = none
index_onto false (some i) = some (suc i)

unfoldable pub index_of : (Endpoint → Bool) → List Endpoint → Option ℕ
index_of test [] = none
index_of test (e ∷ es) = index_onto (test e) (index_of test es)

abbrev or_index : ℕ → Option ℕ → ℕ
or_index i none = i
or_index i (some j) = j

-- The selected endpoint after the endpoints of the same container are discovered anew.
unfoldable pub keep_selected : ℤ → List Endpoint → ℕ → ℕ
unfolding index_of
keep_selected current endpoints selected =
    let found = or_index selected (index_of (λ e. int_eq e.port current) endpoints) in
    let kept = if int_lt (pos 0) current then found else selected in
    if leb (length endpoints) kept then 0 else kept

abbrev slashed : Text → Text
slashed path = if has_prefix path (codes "/") then path else codes "/" ++ path

abbrev or_slash : Text → Text
or_slash [] = codes "/"
or_slash (c ∷ cs) = c ∷ cs

abbrev pub or_text : Text → Option Text → Text
or_text base none = base
or_text base (some t) = t

-- `u.RequestURI()` or "/"; `Atoi` of the port of a URL that has one, or the port of its scheme.
abbrev scheme_port : Text → ℤ
scheme_port scheme = if text_eq scheme (codes "https") then pos 443 else pos 80

abbrev or_port : ℤ → Option ℤ → ℤ
or_port default none = default
or_port default (some n) = n

abbrev url_port : Url → ℤ
url_port u = or_port (scheme_port u.scheme) (atoi u.port)

abbrev has_port : ℤ → Endpoint → Bool
has_port n e = int_eq e.host_port n || int_eq e.port n

abbrev first_host : List Endpoint → Text
first_host [] = localhost
first_host (e ∷ es) = e.host_ip

abbrev port_proto : ℤ → Text
port_proto n = if int_eq n (pos 443) || int_eq n (pos 8443) then codes "https" else codes "http"

abbrev custom_endpoint : Text → Text → Text → ℤ → Endpoint
custom_endpoint description proto host n = record {
  port = n;
  host_ip = host;
  host_port = n;
  protocol = proto;
  url = url_of proto host n;
  description = description ++ itoa n;
  is_exposed = true;
}

-- `portNum > 0 && portNum <= 65535`
abbrev in_port : Option ℤ → Option ℤ
in_port none = none
in_port (some n) = if int_lt (pos 0) n && int_le n (pos 65535) then some n else none

abbrev is_full_url : Text → Bool
is_full_url input = has_prefix input (codes "http://") || has_prefix input (codes "https://")

abbrev parsed : UrlPackage → Text → Option Url
parsed urls input = if is_full_url input then urls.parse input else none

abbrev next_mode : ViewMode → ViewMode
next_mode mode_rendered = mode_headers
next_mode mode_headers = mode_raw
next_mode mode_raw = mode_rendered

abbrev url_with : UrlPackage → Text → Option Text → Text
url_with urls path none = []
url_with urls path (some base) =
    or_text base (urls.with_path base (slashed (or_slash (trim_space path))))

module _ {R D : Type 0} where
  unfoldable pub new_web_view : WebView R D
  new_web_view = record {
    container_id = [];
    container_name = [];
    endpoints = [];
    selected_ep = 0;
    custom_path = codes "/";
    mode = mode_rendered;
    probe_res = none;
    rendered_doc = none;
    scroll_offset = pos 0;
    is_loading = false;
    probe_seq = 0;
    last_probed_at = none;
  }

  unfoldable pub current_endpoint : WebView R D → Option Endpoint
  current_endpoint w = get_elem? w.endpoints w.selected_ep

  unfoldable pub target_url : UrlPackage → WebView R D → Text
  target_url urls w = url_with urls w.custom_path (url_at w.endpoints w.selected_ep)

  -- The next number, with which the probe of the target starts.
  unfoldable pub start_probe : Text → Running R D → Running R D
  start_probe target s = record {
    view = record s.view { probe_seq = s.view.probe_seq + 1; is_loading = true };
    probes = (s.view.probe_seq + 1, target) ∷ s.probes;
  }

  abbrev pub fetch : Text → Running R D → Running R D
  fetch [] s = s
  fetch (c ∷ cs) s = start_probe (c ∷ cs) s

  unfoldable pub fetch_current : UrlPackage → Running R D → Running R D
  unfolding start_probe target_url
  fetch_current urls s = fetch (target_url urls s.view) s

  -- What the probe of the given number does with its answer.
  unfoldable pub answered : (R → D) → ℕ → R → ℕ → WebView R D → WebView R D
  answered render current_seq res now w =
      if w.probe_seq == current_seq
      then record w {
        probe_res = some res;
        rendered_doc = some (render res);
        is_loading = false;
        last_probed_at = some now;
      }
      else w

  abbrev pub same_container : Text → WebView R D → Bool
  same_container id w = text_eq w.container_id id && not (text_eq w.container_id [])

  unfoldable pub refreshed : Text → Text → List Endpoint → WebView R D → WebView R D
  unfolding keep_selected
  refreshed id name endpoints w = record w {
    container_id = id;
    container_name = name;
    endpoints = endpoints;
    selected_ep = keep_selected (port_at w.endpoints w.selected_ep) endpoints w.selected_ep;
  }

  unfoldable pub initialized : Text → Text → List Endpoint → WebView R D → WebView R D
  initialized id name endpoints w = record w {
    container_id = id;
    container_name = name;
    endpoints = endpoints;
    selected_ep = 0;
    scroll_offset = pos 0;
    custom_path = codes "/";
    probe_res = none;
    rendered_doc = none;
  }

  abbrev pub with_view : WebView R D → Running R D → Running R D
  with_view w s = record s { view = w }

  unfoldable pub set_container :
      NetPackage → UrlPackage → Text → Text → Text → Text → List Text → Running R D → Running R D
  unfolding refreshed initialized fetch_current
  set_container net urls id name ports nets envs s =
      let endpoints = discover_endpoints net ports nets envs in
      if same_container id s.view
      then with_view (refreshed id name endpoints s.view) s
      else fetch_current urls (with_view (initialized id name endpoints s.view) s)

  unfoldable pub select_next : WebView R D → WebView R D
  select_next w =
      if ltb 1 (length w.endpoints)
      then record w {
        selected_ep = (w.selected_ep + 1) % length w.endpoints;
        scroll_offset = pos 0;
      }
      else w

  -- The number of endpoints is added first, so that no difference is negative.
  unfoldable pub select_prev : WebView R D → WebView R D
  select_prev w =
      if ltb 1 (length w.endpoints)
      then record w {
        selected_ep = (w.selected_ep + length w.endpoints - 1) % length w.endpoints;
        scroll_offset = pos 0;
      }
      else w

  unfoldable pub next_endpoint : UrlPackage → Running R D → Running R D
  unfolding fetch_current select_next
  next_endpoint urls s = fetch_current urls (with_view (select_next s.view) s)

  unfoldable pub prev_endpoint : UrlPackage → Running R D → Running R D
  unfolding fetch_current select_prev
  prev_endpoint urls s = fetch_current urls (with_view (select_prev s.view) s)

  abbrev pub selected_or_added : Endpoint → Option ℕ → WebView R D → WebView R D
  selected_or_added e none w = record w {
    endpoints = w.endpoints ++ e ∷ [];
    selected_ep = length (w.endpoints ++ e ∷ []) - 1;
  }
  selected_or_added e (some i) w = record w { selected_ep = i }

  -- The endpoint of the port, added at the end if there is none, and the path.
  unfoldable pub visit : Endpoint → Text → WebView R D → WebView R D
  unfolding index_of
  visit e path w = record (selected_or_added e (index_of (has_port e.port) w.endpoints) w) {
    custom_path = path;
    scroll_offset = pos 0;
  }

  abbrev by_path : Text → WebView R D → WebView R D
  by_path input w = record w { custom_path = slashed input; scroll_offset = pos 0 }

  abbrev pub by_port : Text → Text → Option ℤ → WebView R D → WebView R D
  by_port input rest none w = by_path input w
  by_port input rest (some n) w =
      visit (custom_endpoint (codes "Port ") (port_proto n) (first_host w.endpoints) n)
        (codes "/" ++ rest) w

  abbrev pub by_url : Text → Option Url → WebView R D → WebView R D
  by_url input none w =
      let parts = cut b'/' (trim_prefix input (codes ":")) in
      by_port input parts.1 (in_port (atoi parts.0)) w
  by_url input (some u) w =
      visit (custom_endpoint (codes "Custom Port ") u.scheme u.hostname (url_port u))
        (or_slash u.request_uri) w

  unfoldable pub with_custom_path : UrlPackage → Text → WebView R D → WebView R D
  unfolding visit
  with_custom_path urls input w =
      let path = or_slash (trim_space input) in by_url path (parsed urls path) w

  unfoldable pub set_custom_path : UrlPackage → Text → Running R D → Running R D
  unfolding fetch_current with_custom_path
  set_custom_path urls input s =
      fetch_current urls (with_view (with_custom_path urls input s.view) s)

  unfoldable pub set_mode : ViewMode → WebView R D → WebView R D
  set_mode m w = record w { mode = m; scroll_offset = pos 0 }

  unfoldable pub toggle_mode : WebView R D → WebView R D
  toggle_mode w = record w { mode = next_mode w.mode; scroll_offset = pos 0 }

  unfoldable pub scroll_up : ℤ → WebView R D → WebView R D
  scroll_up lines w =
      let offset = w.scroll_offset -ℤ lines in
      record w { scroll_offset = if int_lt offset (pos 0) then pos 0 else offset }

  unfoldable pub scroll_down : ℤ → WebView R D → WebView R D
  scroll_down lines w = record w { scroll_offset = w.scroll_offset +ℤ lines }
