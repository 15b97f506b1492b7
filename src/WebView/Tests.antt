-- ===== src/WebView/Tests.antt =====
-- The web view with numbers for answers: a probe answers with the length of its target.
use ctop.Prelude.{
  ◌≤◌, ◌-◌, ℕ, map, zero, suc, ◌≡◌, refl, List, [], ◌∷◌, ◌++◌, Option, none, some, length,
}
use ctop.Prelude.Texts.{Text, codes}
use ctop.Prelude.Int.{ℤ, pos}
use ctop.Service.Discover.{NetPackage}
use ctop.WebView.{UrlPackage, Running, new_web_view, answered, with_view}
use ctop.WebView.Selection.{Reach-InRange}
use ctop.WebView.Probes.{
  Reach, fresh, calls, answers, run, sets_custom_path, sets_container, Reach-newest,
}

abbrev net : NetPackage
net = record { parse_ip = λ t. none; split_host_port = λ t. none }

abbrev urls : UrlPackage
urls = record { parse = λ t. none; with_path = λ base path. some (base ++ path) }

abbrev IsLength : Text → ℕ → Type 0
IsLength target r = r ≡ length target

abbrev start : Running ℕ ℕ
start = record { view = new_web_view; probes = [] }

abbrev gone_to : Running ℕ ℕ
gone_to =
    run net urls (sets_custom_path (codes "ping"))
      (run net urls (sets_custom_path (codes ":8080")) start)

-- The second probe answers, then the first.
abbrev shown : Running ℕ ℕ
shown = with_view (answered suc 2 27 5 gone_to.view) gone_to

abbrev late : Running ℕ ℕ
late = with_view (answered suc 1 23 6 shown.view) shown

gone_to-probes :
    gone_to.probes
    ≡ (2, codes "http://127.0.0.1:8080//ping") ∷ (1, codes "http://127.0.0.1:8080//") ∷ []
unfolding run ctop.WebView.set_custom_path ctop.Prelude.Texts.has_prefix
    ctop.Prelude.Texts.trim_space ctop.Prelude.Split.atoi ctop.Prelude.Texts.cut
    ctop.Prelude.Texts.trim_prefix new_web_view ctop.Prelude.Split.itoa
gone_to-probes = refl

late-Reach : Reach net urls suc IsLength late
unfolding run ctop.WebView.set_custom_path ctop.Prelude.Texts.has_prefix
    ctop.Prelude.Texts.trim_space ctop.Prelude.Split.atoi ctop.Prelude.Texts.cut
    ctop.Prelude.Texts.trim_prefix new_web_view ctop.Prelude.Split.itoa
late-Reach =
    answers 1 1 (codes "http://127.0.0.1:8080//") 23 6
      (answers 0 2 (codes "http://127.0.0.1:8080//ping") 27 5
        (calls (sets_custom_path (codes "ping")) (calls (sets_custom_path (codes ":8080")) fresh))
        refl refl)
      refl refl

Reach-newest_example :
    (p : ℕ × Text) × (ps : List (ℕ × Text)) × (late.probes ≡ p ∷ ps) × IsLength p.1 27
unfolding answered run ctop.WebView.set_custom_path ctop.Prelude.Texts.has_prefix
    ctop.Prelude.Texts.trim_space ctop.Prelude.Split.atoi ctop.Prelude.Texts.cut
    ctop.Prelude.Texts.trim_prefix new_web_view
Reach-newest_example = Reach-newest IsLength late 27 late-Reach refl refl

-- A container without endpoints is opened while a probe runs: the page of the other one is taken.
abbrev other : Running ℕ ℕ
other = run net urls (sets_container (codes "2") (codes "db") [] [] []) gone_to

other-stale : (answered suc 2 27 5 other.view).probe_res ≡ some 27
unfolding answered run ctop.WebView.set_container ctop.Prelude.Texts.text_eq
    ctop.WebView.set_custom_path ctop.Prelude.Texts.has_prefix ctop.Prelude.Texts.trim_space
    ctop.Prelude.Split.atoi ctop.Prelude.Texts.cut ctop.Prelude.Texts.trim_prefix new_web_view
    ctop.Service.Discover.discover_endpoints ctop.Prelude.Split.split_at
    ctop.Service.Discover.extract_first_container_ip
other-stale = refl

-- An endpoint that was entered goes with the next refresh of the same container.
abbrev opened : Running ℕ ℕ
opened =
    run net urls (sets_custom_path (codes "9000"))
      (run net urls (sets_container (codes "1") (codes "web") [] [] []) start)

abbrev ports_of : Running ℕ ℕ → List ℤ
ports_of s = map (λ e. e.port) s.view.endpoints

opened-ports : ports_of opened ≡ pos 9000 ∷ []
unfolding run ctop.WebView.set_custom_path ctop.Prelude.Texts.has_prefix
    ctop.Prelude.Texts.trim_space ctop.Prelude.Split.atoi ctop.Prelude.Texts.cut
    ctop.Prelude.Texts.trim_prefix ctop.WebView.set_container ctop.Prelude.Texts.text_eq
    new_web_view ctop.Service.Discover.discover_endpoints ctop.Prelude.Split.split_at
    ctop.Service.Discover.extract_first_container_ip
opened-ports = refl

opened-refreshed :
    ports_of (run net urls (sets_container (codes "1") (codes "web") [] [] []) opened) ≡ []
unfolding run ctop.WebView.set_container ctop.Prelude.Texts.text_eq ctop.WebView.set_custom_path
    ctop.Prelude.Texts.has_prefix ctop.Prelude.Texts.trim_space ctop.Prelude.Split.atoi
    ctop.Prelude.Texts.cut ctop.Prelude.Texts.trim_prefix new_web_view
    ctop.Service.Discover.discover_endpoints ctop.Prelude.Split.split_at
    ctop.Service.Discover.extract_first_container_ip
opened-refreshed = refl

Reach-InRange_example : late.view.selected_ep ≤ length late.view.endpoints - 1
Reach-InRange_example = Reach-InRange late late-Reach
