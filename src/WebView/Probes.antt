-- ===== src/WebView/Probes.antt =====
-- The background probes of internal/cwidgets/single/webview.go: the calls of the widget and the answers
-- of its probes, in any order.
use ctop.Prelude.{
  ℕ, zero, suc, ◌+◌, ◌<◌, ◌≡◌, refl, sym, some_inj, ◌⊎◌, inl, inr, true, false, List, [], ◌∷◌,
  Option, none, some, get_elem?, ◌==◌, Bool-cases, All, All-get, All-imp, arith,
}
use ctop.Prelude.Int.{ℤ}
use ctop.Prelude.Texts.{Text}
use ctop.Service.Discover.{Endpoint, NetPackage, discover_endpoints}
use ctop.WebView.{
  UrlPackage, WebView, Running, ViewMode, new_web_view, fetch_current, start_probe, target_url,
  fetch, answered, set_container, same_container, refreshed, initialized, with_view, next_endpoint,
  prev_endpoint, select_next, select_prev, set_custom_path, with_custom_path, visit, set_mode,
  toggle_mode, scroll_up, scroll_down, selected_or_added, by_port, by_url, Url,
}

-- The calls that change the view.
pub data Call : Type 0 where
  sets_container : Text → Text → Text → Text → List Text → Call
  fetches selects_next selects_prev toggles_mode : Call
  sets_custom_path : Text → Call
  sets_mode : ViewMode → Call
  scrolls_up scrolls_down : ℤ → Call

module _ {R D : Type 0} (net : NetPackage) (urls : UrlPackage) where
  unfoldable pub run : Call → Running R D → Running R D
  run (sets_container id name ports nets envs) s = set_container net urls id name ports nets envs s
  run fetches s = fetch_current urls s
  run selects_next s = next_endpoint urls s
  run selects_prev s = prev_endpoint urls s
  run toggles_mode s = with_view (toggle_mode s.view) s
  run (sets_custom_path input) s = set_custom_path urls input s
  run (sets_mode m) s = with_view (set_mode m s.view) s
  run (scrolls_up lines) s = with_view (scroll_up lines s.view) s
  run (scrolls_down lines) s = with_view (scroll_down lines s.view) s

-- `IsAnswer target r`: a probe of the target may give `r`. A probe that was started may answer at any time.
pub data Reach {R D : Type 0} (net : NetPackage) (urls : UrlPackage) (render : R → D)
    (IsAnswer : Text → R → Type 0) : Running R D → Type 0 where
  fresh : Reach net urls render IsAnswer (record { view = new_web_view; probes = [] })
  calls :
      {s : Running R D} (c : Call)
      → Reach net urls render IsAnswer s
      → Reach net urls render IsAnswer (run net urls c s)
  answers :
      {s : Running R D} (i : ℕ) (n : ℕ) (target : Text) (r : R) (now : ℕ)
      → Reach net urls render IsAnswer s
      → get_elem? s.probes i ≡ some (n, target)
      → IsAnswer target r
      → Reach net urls render IsAnswer (with_view (answered render n r now s.view) s)

-- The newest probe has the number `n`, all others have smaller ones.
abbrev Numbered : ℕ → List (ℕ × Text) → Type 0
Numbered n [] = Unit
Numbered n (p ∷ ps) = (p.0 ≡ n) × All (λ q. q.0 < n) ps

-- A result on the screen answers the newest probe.
abbrev Shown : {R : Type 0} → (Text → R → Type 0) → List (ℕ × Text) → Option R → Type 0
Shown IsAnswer probes none = Unit
Shown IsAnswer [] (some r) = true ≡ false
Shown IsAnswer (p ∷ ps) (some r) = IsAnswer p.1 r

-- What of the view the probes depend on.
abbrev Same : {R D : Type 0} → WebView R D → WebView R D → Type 0
Same v w = (w.probe_seq ≡ v.probe_seq) × (w.is_loading ≡ v.is_loading) × (w.probe_res ≡ v.probe_res)

Numbered-older :
    (n : ℕ) (probes : List (ℕ × Text)) → Numbered n probes → All (λ q. q.0 < n + 1) probes
Numbered-older n [] h = tt
Numbered-older n (p ∷ ps) (e, h) = (omega arith, All-imp _ ps (λ q l. omega arith) h)

-- The probe of the newest number is the first.
Numbered-first :
    (n i k : ℕ) (probes : List (ℕ × Text)) (target : Text)
    → Numbered n probes
    → get_elem? probes i ≡ some (k, target)
    → n ≡ k
    → get_elem? probes 0 ≡ some (k, target)
Numbered-first n zero k (p ∷ ps) target h g e = g
Numbered-first n (suc i) k (p ∷ ps) target (_, h) g e =
    absurd (let l = All-get _ ps i (k, target) h g in omega arith)
Numbered-first n i k [] target h g e = g

module _ {R D : Type 0} where
  selected_or_added-Same :
      (e : Endpoint) (i : Option ℕ) (w : WebView R D) → Same w (selected_or_added e i w)
  selected_or_added-Same e none w = (refl, refl, refl)
  selected_or_added-Same e (some i) w = (refl, refl, refl)

  by_port-Same :
      (input rest : Text) (n : Option ℤ) (w : WebView R D) → Same w (by_port input rest n w)
  unfolding visit
  by_port-Same input rest none w = (refl, refl, refl)
  by_port-Same input rest (some n) w = selected_or_added-Same _ _ w

  by_url-Same : (input : Text) (u : Option Url) (w : WebView R D) → Same w (by_url input u w)
  unfolding visit
  by_url-Same input none w = by_port-Same _ _ _ w
  by_url-Same input (some u) w = selected_or_added-Same _ _ w

  with_custom_path-Same :
      (urls : UrlPackage) (input : Text) (w : WebView R D) → Same w (with_custom_path urls input w)
  unfolding with_custom_path
  with_custom_path-Same urls input w = by_url-Same _ _ w

  select_next-Same : (w : WebView R D) → Same w (select_next w)
  unfolding select_next
  select_next-Same w = ground arith

  select_prev-Same : (w : WebView R D) → Same w (select_prev w)
  unfolding select_prev
  select_prev-Same w = ground arith

module _ {R : Type 0} (IsAnswer : Text → R → Type 0) where
  Shown-newest :
      (probes : List (ℕ × Text)) (r : R)
      → Shown IsAnswer probes (some r)
      → (p : ℕ × Text) × (ps : List (ℕ × Text)) × (probes ≡ p ∷ ps) × IsAnswer p.1 r
  Shown-newest [] r h = absurd (ground arith)
  Shown-newest (p ∷ ps) r h = (p, ps, refl, h)

  Shown-first :
      (probes : List (ℕ × Text)) (n : ℕ) (target : Text) (r : R)
      → get_elem? probes 0 ≡ some (n, target)
      → IsAnswer target r
      → Shown IsAnswer probes (some r)
  Shown-first [] n target r g a = absurd (ground arith)
  Shown-first (p ∷ ps) n target r g a = rw (some_inj g) a

module _ {R D : Type 0} (IsAnswer : Text → R → Type 0) where
  -- While no probe is awaited, what is on the screen answers the newest.
  abbrev IsSettled : Running R D → Type 0
  IsSettled s =
      Numbered s.view.probe_seq s.probes
      × ((s.view.is_loading ≡ true) ⊎ Shown IsAnswer s.probes s.view.probe_res)

  Same-IsSettled :
      (s : Running R D) (w : WebView R D) → Same s.view w → IsSettled s → IsSettled (with_view w s)
  Same-IsSettled s w (a, b, c) h = rw (a, b, c) h

  fetch-IsSettled : (target : Text) (s : Running R D) → IsSettled s → IsSettled (fetch target s)
  unfolding start_probe
  fetch-IsSettled [] s h = h
  fetch-IsSettled (c ∷ cs) s (h, _) = ((refl, Numbered-older _ s.probes h), inl refl)

  fetch_current-IsSettled :
      (urls : UrlPackage) (s : Running R D) → IsSettled s → IsSettled (fetch_current urls s)
  unfolding fetch_current
  fetch_current-IsSettled urls s h = fetch-IsSettled (target_url urls s.view) s h

  Same-fetch_current-IsSettled :
      (urls : UrlPackage) (s : Running R D) (w : WebView R D)
      → Same s.view w
      → IsSettled s
      → IsSettled (fetch_current urls (with_view w s))
  Same-fetch_current-IsSettled urls s w e h =
      fetch_current-IsSettled urls (with_view w s) (Same-IsSettled s w e h)

  initialized-IsSettled :
      (id name : Text) (endpoints : List Endpoint) (s : Running R D)
      → IsSettled s
      → IsSettled (with_view (initialized id name endpoints s.view) s)
  unfolding initialized
  initialized-IsSettled id name endpoints s (h, _) = (h, inr tt)

  refreshed-IsSettled :
      (id name : Text) (endpoints : List Endpoint) (s : Running R D)
      → IsSettled s
      → IsSettled (with_view (refreshed id name endpoints s.view) s)
  unfolding refreshed
  refreshed-IsSettled id name endpoints s h = h

  set_container-IsSettled :
      (net : NetPackage) (urls : UrlPackage) (id name ports nets : Text) (envs : List Text)
      (s : Running R D)
      → IsSettled s
      → IsSettled (set_container net urls id name ports nets envs s)
  unfolding set_container
  set_container-IsSettled net urls id name ports nets envs s h =
      let endpoints = discover_endpoints net ports nets envs in
      elim (Bool-cases (same_container id s.view)) [
        | inl e ↦ rw e (refreshed-IsSettled id name endpoints s h)
        | inr e ↦ rw e (
            fetch_current-IsSettled urls (with_view (initialized id name endpoints s.view) s)
              (initialized-IsSettled id name endpoints s h))
      ]

  run-IsSettled :
      (net : NetPackage) (urls : UrlPackage) (c : Call) (s : Running R D)
      → IsSettled s
      → IsSettled (run net urls c s)
  unfolding run next_endpoint prev_endpoint set_custom_path toggle_mode set_mode scroll_up
      scroll_down
  run-IsSettled net urls (sets_container id name ports nets envs) s h =
      set_container-IsSettled net urls id name ports nets envs s h
  run-IsSettled net urls fetches s h = fetch_current-IsSettled urls s h
  run-IsSettled net urls selects_next s h =
      Same-fetch_current-IsSettled urls s (select_next s.view) (select_next-Same s.view) h
  run-IsSettled net urls selects_prev s h =
      Same-fetch_current-IsSettled urls s (select_prev s.view) (select_prev-Same s.view) h
  run-IsSettled net urls (sets_custom_path input) s h =
      Same-fetch_current-IsSettled urls s (with_custom_path urls input s.view)
        (with_custom_path-Same urls input s.view) h
  run-IsSettled net urls _ s h = h

  answered-IsSettled :
      (render : R → D) (i n : ℕ) (target : Text) (r : R) (now : ℕ) (s : Running R D)
      → IsSettled s
      → get_elem? s.probes i ≡ some (n, target)
      → IsAnswer target r
      → IsSettled (with_view (answered render n r now s.view) s)
  unfolding answered
  answered-IsSettled render i n target r now s (h, k) g a =
      elim (Bool-cases (s.view.probe_seq == n)) [
        | inl e ↦
            let first =
              Numbered-first s.view.probe_seq i n s.probes target h g (ground (arith, e)) in
            rw e (h, inr (Shown-first IsAnswer s.probes n target r first a))
        | inr e ↦ rw e (h, k)
      ]

  Reach-IsSettled :
      {net : NetPackage} {urls : UrlPackage} {render : R → D} (s : Running R D)
      → Reach net urls render IsAnswer s
      → IsSettled s
  unfolding new_web_view
  Reach-IsSettled _ fresh = (tt, inr tt)
  Reach-IsSettled {net} {urls} _ (calls {s} c m) = run-IsSettled net urls c s (Reach-IsSettled s m)
  Reach-IsSettled {render = render} _ (answers {s} i n target r now m g a) =
      answered-IsSettled render i n target r now s (Reach-IsSettled s m) g a

  -- Once no probe is awaited, the result that the view has, if any, answers the target of the probe that
  -- was started last, whatever was called before and in whatever order the probes have answered.
  pub Reach-newest :
      {net : NetPackage} {urls : UrlPackage} {render : R → D} (s : Running R D) (r : R)
      → Reach net urls render IsAnswer s
      → s.view.is_loading ≡ false
      → s.view.probe_res ≡ some r
      → (p : ℕ × Text) × (ps : List (ℕ × Text)) × (s.probes ≡ p ∷ ps) × IsAnswer p.1 r
  Reach-newest s r m e f = elim (Reach-IsSettled s m).1 [
    | inl l ↦ absurd (ground arith)
    | inr k ↦ Shown-newest IsAnswer s.probes r (rw (sym f) k)
  ]
