-- ===== src/WebView/Selection.antt =====
-- The selected endpoint of internal/cwidgets/single/webview.go.
use ctop.Prelude.{
  some_inj, ℕ, suc, ◌+◌, ◌-◌, ◌<◌, ◌≤◌, ◌≡◌, refl, List, [], ◌∷◌, Option, none, some, Bool, true,
  false, ltb, length, arith, Bool-cases, inl, inr,
}
use native.Mathlib.Nat.{mod-lt}
use ctop.Prelude.Int.{ℤ}
use ctop.Prelude.Texts.{Text}
use ctop.Service.Discover.{NetPackage, Endpoint, discover_endpoints}
use ctop.WebView.{
  UrlPackage, Url, WebView, Running, new_web_view, fetch, fetch_current, start_probe, target_url,
  answered, set_container, same_container, refreshed, initialized, keep_selected, with_view,
  index_of, index_onto, next_endpoint, prev_endpoint, select_next, select_prev, selected_or_added,
  set_custom_path, with_custom_path, by_url, by_port, visit, set_mode, toggle_mode, scroll_up,
  scroll_down,
}
use ctop.WebView.Probes.{
  Call, Reach, fresh, calls, answers, run, sets_container, fetches, selects_next, selects_prev,
  sets_custom_path,
}

index_onto-below :
    (b : Bool) (found : Option ℕ) (n i : ℕ)
    → ((j : ℕ) → found ≡ some j → j < n)
    → index_onto b found ≡ some i
    → i < suc n
index_onto-below true found n i f h = let e = some_inj h in omega arith
index_onto-below false none n i f h = absurd (ground arith)
index_onto-below false (some j) n i f h = let e = some_inj h in let l = f j refl in omega arith

index_of-below :
    (test : Endpoint → Bool) (endpoints : List Endpoint) (i : ℕ)
    → index_of test endpoints ≡ some i
    → i < length endpoints
unfolding index_of
index_of-below test [] i h = absurd (ground arith)
index_of-below test (e ∷ es) i h =
    index_onto-below (test e) (index_of test es) (length es) i (index_of-below test es) h

keep_selected-below :
    (current : ℤ) (endpoints : List Endpoint) (selected : ℕ)
    → keep_selected current endpoints selected ≤ length endpoints - 1
unfolding keep_selected
keep_selected-below current endpoints selected = ground arith

module _ {R D : Type 0} where
  -- An endpoint is selected, or there is none and the first is.
  abbrev InRange : WebView R D → Type 0
  InRange w = w.selected_ep ≤ length w.endpoints - 1

  select_next-InRange : (w : WebView R D) → InRange w → InRange (select_next w)
  unfolding select_next
  select_next-InRange w h = elim (Bool-cases (ltb 1 (length w.endpoints))) [
    | inl e ↦
        let l = mod-lt (w.selected_ep + 1) {m = length w.endpoints} (ground (arith, e)) in
        rw e (omega arith)
    | inr e ↦ rw e h
  ]

  select_prev-InRange : (w : WebView R D) → InRange w → InRange (select_prev w)
  unfolding select_prev
  select_prev-InRange w h = elim (Bool-cases (ltb 1 (length w.endpoints))) [
    | inl e ↦
        let l =
          mod-lt (w.selected_ep + length w.endpoints - 1) {m = length w.endpoints}
            (ground (arith, e)) in
        rw e (omega arith)
    | inr e ↦ rw e h
  ]

  selected_or_added-InRange :
      (test : Endpoint → Bool) (e : Endpoint) (i : Option ℕ) (w : WebView R D)
      → index_of test w.endpoints ≡ i
      → InRange (selected_or_added e i w)
  selected_or_added-InRange test e none w h = omega arith
  selected_or_added-InRange test e (some i) w h =
      let l = index_of-below test w.endpoints i h in omega arith

  by_port-InRange :
      (input rest : Text) (n : Option ℤ) (w : WebView R D)
      → InRange w
      → InRange (by_port input rest n w)
  unfolding visit
  by_port-InRange input rest none w h = h
  by_port-InRange input rest (some n) w h = selected_or_added-InRange _ _ _ w refl

  by_url-InRange :
      (input : Text) (u : Option Url) (w : WebView R D) → InRange w → InRange (by_url input u w)
  unfolding visit
  by_url-InRange input none w h = by_port-InRange _ _ _ w h
  by_url-InRange input (some u) w h = selected_or_added-InRange _ _ _ w refl

  with_custom_path-InRange :
      (urls : UrlPackage) (input : Text) (w : WebView R D)
      → InRange w
      → InRange (with_custom_path urls input w)
  unfolding with_custom_path
  with_custom_path-InRange urls input w h = by_url-InRange _ _ w h

  fetch-InRange : (target : Text) (s : Running R D) → InRange s.view → InRange (fetch target s).view
  unfolding start_probe
  fetch-InRange [] s h = h
  fetch-InRange (c ∷ cs) s h = h

  fetch_current-InRange :
      (urls : UrlPackage) (s : Running R D) → InRange s.view → InRange (fetch_current urls s).view
  unfolding fetch_current
  fetch_current-InRange urls s h = fetch-InRange (target_url urls s.view) s h

  refetched-InRange :
      (urls : UrlPackage) (w : WebView R D) (s : Running R D)
      → InRange w
      → InRange (fetch_current urls (with_view w s)).view
  refetched-InRange urls w s h = fetch_current-InRange urls (with_view w s) h

  set_container-InRange :
      (net : NetPackage) (urls : UrlPackage) (id name ports nets : Text) (envs : List Text)
      (s : Running R D)
      → InRange (set_container net urls id name ports nets envs s).view
  unfolding set_container refreshed initialized
  set_container-InRange net urls id name ports nets envs s =
      let endpoints = discover_endpoints net ports nets envs in
      elim (Bool-cases (same_container id s.view)) [
        | inl e ↦ rw e (keep_selected-below _ endpoints s.view.selected_ep)
        | inr e ↦
            rw e (refetched-InRange urls (initialized id name endpoints s.view) s (omega arith))
      ]

  run-InRange :
      (net : NetPackage) (urls : UrlPackage) (c : Call) (s : Running R D)
      → InRange s.view
      → InRange (run net urls c s).view
  unfolding run next_endpoint prev_endpoint set_custom_path toggle_mode set_mode scroll_up
      scroll_down
  run-InRange net urls (sets_container id name ports nets envs) s h =
      set_container-InRange net urls id name ports nets envs s
  run-InRange net urls fetches s h = fetch_current-InRange urls s h
  run-InRange net urls selects_next s h =
      refetched-InRange urls (select_next s.view) s (select_next-InRange s.view h)
  run-InRange net urls selects_prev s h =
      refetched-InRange urls (select_prev s.view) s (select_prev-InRange s.view h)
  run-InRange net urls (sets_custom_path input) s h =
      refetched-InRange urls (with_custom_path urls input s.view) s
        (with_custom_path-InRange urls input s.view h)
  run-InRange net urls _ s h = h

  answered-InRange :
      (render : R → D) (n : ℕ) (r : R) (now : ℕ) (w : WebView R D)
      → InRange w
      → InRange (answered render n r now w)
  unfolding answered
  answered-InRange render n r now w h = ground (arith, h)

  -- In every state that calls and answers make of a new view, one of its endpoints is selected, or it has
  -- none and the first is.
  pub Reach-InRange :
      {net : NetPackage} {urls : UrlPackage} {render : R → D} {IsAnswer : Text → R → Type 0}
      (s : Running R D)
      → Reach net urls render IsAnswer s
      → s.view.selected_ep ≤ length s.view.endpoints - 1
  unfolding new_web_view
  Reach-InRange _ fresh = omega arith
  Reach-InRange {net} {urls} _ (calls {s} c m) = run-InRange net urls c s (Reach-InRange s m)
  Reach-InRange {render = render} _ (answers {s} i n target r now m g a) =
      answered-InRange render n r now s.view (Reach-InRange s m)
