-- ===== src/Web/RateLimit/Window.antt =====
-- Histories of the login rate limiter of pkg/web/server.go.
use mathlib.Core.Path.{subst}
use ctop.Prelude.{
  ℕ, ◌≤◌, ◌<◌, ◌≡◌, refl, sym, ap, ◌∙◌, List, [], ◌∷◌, ◌++◌, Option, none, some, ltb, if◌then◌else◌,
  length, select, arith, select-append, Bool-cases, inl, inr,
}
use ctop.Prelude.Int.{ℤ, pos, negsuc}
use ctop.Prelude.Texts.{Text, text_eq, text_eq_iff}
use ctop.Prelude.Assoc.{lookup, lookup-insert, lookup-delete}
use ctop.Web.RateLimit.{
  LoginRateLimiter, new_login_rate_limiter, within, allow_known, allow, times, record_failure,
  record_success,
}

-- What happens to the limiter, with the time at which it happens.
pub data Event : Type 0 where
  asked : Text → ℕ → Event
  failed : Text → ℕ → Event
  succeeded : Text → ℕ → Event

abbrev pub time_of : Event → ℕ
time_of (asked ip t) = t
time_of (failed ip t) = t
time_of (succeeded ip t) = t

abbrev apply : Event → LoginRateLimiter → LoginRateLimiter
apply (asked ip t) rl = (allow ip t rl).0
apply (failed ip t) rl = record_failure ip t rl
apply (succeeded ip t) rl = record_success ip rl

unfoldable pub run : LoginRateLimiter → List Event → LoginRateLimiter
run rl [] = rl
run rl (e ∷ es) = run (apply e rl) es

-- The specification: all the failures of one address since its last success.
abbrev note : Text → Event → List ℕ → List ℕ
note ip (asked j t) ts = ts
note ip (failed j t) ts = if text_eq j ip then ts ++ t ∷ [] else ts
note ip (succeeded j t) ts = if text_eq j ip then [] else ts

unfoldable pub failures_since_success : Text → List ℕ → List Event → List ℕ
failures_since_success ip ts [] = ts
failures_since_success ip ts (e ∷ es) = failures_since_success ip (note ip e ts) es

-- The clock does not go back from `now` over these events to `last`.
abbrev pub InOrder : ℕ → List Event → ℕ → Type 0
InOrder now [] last = now ≤ last
InOrder now (e ∷ es) last = (now ≤ time_of e) × InOrder (time_of e) es last

-- Two lists of failures that no later question tells apart.
abbrev Agree : ℕ → ℕ → List ℕ → List ℕ → Type 0
Agree window now xs ys =
    (later : ℕ) → now ≤ later → select (within window later) xs ≡ select (within window later) ys

select-within :
    (window now later : ℕ) (xs : List ℕ)
    → now ≤ later
    → select (within window later) (select (within window now) xs) ≡ select (within window later) xs
select-within window now later [] h = refl
select-within window now later (x ∷ xs) h = ground (arith, select-within window now later xs h)

stored : Text → LoginRateLimiter → List ℕ
stored ip rl = times (lookup ip rl.failures)

stored-allow :
    (ip j : Text) (now later : ℕ) (rl : LoginRateLimiter)
    → now ≤ later
    → select (within rl.window_period later) (stored ip (allow j now rl).0)
      ≡ select (within rl.window_period later) (stored ip rl)
unfolding stored allow
stored-allow ip j now later rl h = go (lookup j rl.failures) refl
  where
    go :
        (found : Option (List ℕ))
        → lookup j rl.failures ≡ found
        → select
            (within rl.window_period later)
            (times (lookup ip (allow_known j now rl found).0.failures))
          ≡ select (within rl.window_period later) (times (lookup ip rl.failures))
    go none e = refl
    go (some ts) e = elim (Bool-cases (text_eq j ip)) [
      | inl same ↦
          rw (lookup-insert, same, ← (text_eq_iff j ip).0 same, e)
            (select-within rl.window_period now later ts h)
      | inr other ↦ rw (lookup-insert, other)
    ]

stored-record_failure :
    (ip j : Text) (now : ℕ) (rl : LoginRateLimiter)
    → stored ip (record_failure j now rl) ≡ note ip (failed j now) (stored ip rl)
unfolding stored record_failure
stored-record_failure ip j now rl = ground (
  arith,
  lookup-insert j ip (times (lookup j rl.failures) ++ now ∷ []) rl.failures,
  text_eq_iff j ip,
)

stored-record_success :
    (ip j : Text) (now : ℕ) (rl : LoginRateLimiter)
    → stored ip (record_success j rl) ≡ note ip (succeeded j now) (stored ip rl)
unfolding stored record_success
stored-record_success ip j now rl = ground (arith, lookup-delete j ip rl.failures)

allow_known-limits :
    (ip : Text) (now : ℕ) (rl : LoginRateLimiter) (found : Option (List ℕ))
    → ((allow_known ip now rl found).0.window_period ≡ rl.window_period)
      × ((allow_known ip now rl found).0.max_attempts ≡ rl.max_attempts)
unfolding allow_known
allow_known-limits ip now rl none = (refl, refl)
allow_known-limits ip now rl (some ts) = (refl, refl)

apply-limits :
    (e : Event) (rl : LoginRateLimiter)
    → ((apply e rl).window_period ≡ rl.window_period)
      × ((apply e rl).max_attempts ≡ rl.max_attempts)
unfolding allow record_failure record_success
apply-limits (asked ip t) rl = allow_known-limits ip t rl (lookup ip rl.failures)
apply-limits (failed ip t) rl = (refl, refl)
apply-limits (succeeded ip t) rl = (refl, refl)

-- One event keeps the agreement.
apply-Agree :
    (ip : Text) (now : ℕ) (e : Event) (rl : LoginRateLimiter) (ts : List ℕ)
    → now ≤ time_of e
    → Agree rl.window_period now (stored ip rl) ts
    → Agree rl.window_period (time_of e) (stored ip (apply e rl)) (note ip e ts)
apply-Agree ip now (asked j t) rl ts h a later k =
    stored-allow ip j t later rl k ∙ a later (omega arith)
apply-Agree ip now (failed j t) rl ts h a later k =
    rw stored-record_failure (elim (Bool-cases (text_eq j ip)) [
      | inl e ↦ rw e (
          select-append (within rl.window_period later) (stored ip rl) (t ∷ [])
          ∙ ap (λ l. l ++ select (within rl.window_period later) (t ∷ [])) (a later (omega arith))
          ∙ sym (select-append (within rl.window_period later) ts (t ∷ [])))
      | inr e ↦ rw e (a later (omega arith))
    ])
apply-Agree ip now (succeeded j t) rl ts h a later k =
    rw (stored-record_success ip j t rl)
      (elim (Bool-cases (text_eq j ip)) [ inl e ↦ rw e | inr e ↦ rw e (a later (omega arith)) ])

run-Agree :
    (ip : Text) (w now last : ℕ) (es : List Event) (rl : LoginRateLimiter) (ts : List ℕ)
    → rl.window_period ≡ w
    → InOrder now es last
    → Agree w now (stored ip rl) ts
    → Agree w last (stored ip (run rl es)) (failures_since_success ip ts es)
unfolding run failures_since_success
run-Agree ip w now last [] rl ts e o a = λ later k. a later (omega arith)
run-Agree ip w now last (ev ∷ es) rl ts e o a =
    run-Agree ip w (time_of ev) last es (apply ev rl) (note ip ev ts) ((apply-limits ev rl).0 ∙ e)
      o.1
      (subst
        (λ v.
          Agree v now (stored ip rl) ts
          → Agree v (time_of ev) (stored ip (apply ev rl)) (note ip ev ts))
        e (apply-Agree ip now ev rl ts o.0) a)

run-limits :
    (es : List Event) (rl : LoginRateLimiter)
    → ((run rl es).window_period ≡ rl.window_period) × ((run rl es).max_attempts ≡ rl.max_attempts)
unfolding run
run-limits [] rl = (refl, refl)
run-limits (e ∷ es) rl =
    let (a, b) = run-limits es (apply e rl) in let (c, d) = apply-limits e rl in (a ∙ c, b ∙ d)

allow-stored :
    (ip : Text) (now : ℕ) (rl : LoginRateLimiter)
    → 0 < rl.max_attempts
    → (allow ip now rl).1
      ≡ ltb (length (select (within rl.window_period now) (stored ip rl))) rl.max_attempts
unfolding allow stored
allow-stored ip now rl h = go (lookup ip rl.failures)
  where
    go :
        (found : Option (List ℕ))
        → (allow_known ip now rl found).1
          ≡ ltb (length (select (within rl.window_period now) (times found))) rl.max_attempts
    go none = ground arith
    go (some ts) = refl

new-positive : (m w : ℤ) → 0 < (new_login_rate_limiter m w).max_attempts
unfolding new_login_rate_limiter
new-positive (pos n) w = ground arith
new-positive (negsuc n) w = omega arith

-- After any failures, successes and questions at a clock that does not go back, a new limiter
-- admits an address exactly if fewer than `max_attempts` of the failures of that address since its
-- last success lie within the window. What it has forgotten on the way makes no difference.
pub allow-sliding_window :
    (max_attempts window : ℤ) (ip : Text) (es : List Event) (now : ℕ)
    → InOrder 0 es now
    → let rl = new_login_rate_limiter max_attempts window in
      (allow ip now (run rl es)).1
      ≡ ltb
          (length (select (within rl.window_period now) (failures_since_success ip [] es)))
          rl.max_attempts
allow-sliding_window m w ip es now o =
    let rl = new_login_rate_limiter m w in
    let (same_window, same_max) = run-limits es rl in
    allow-stored ip now (run rl es) (rw same_max (new-positive m w))
    ∙ simp (same_window, same_max)
        (ap (λ (l : List ℕ). ltb (length l) rl.max_attempts)
          (run-Agree ip rl.window_period 0 now es rl [] refl o
            (λ l k. unfold stored new_login_rate_limiter lookup in refl) now (omega arith)))
