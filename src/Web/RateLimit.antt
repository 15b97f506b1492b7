-- ===== src/Web/RateLimit.antt =====
-- `LoginRateLimiter` of pkg/web/server.go: failed logins per client address in a sliding window.
-- Times are nanoseconds; the window is positive, as the constructor makes it.
pub mod Window
use ctop.Prelude.{
  ℕ, ◌+◌, Bool, true, false, List, [], ◌∷◌, ◌++◌, Option, none, some, ltb, if◌then◌else◌, length,
  select,
}
use ctop.Prelude.Int.{ℤ, pos, negsuc}
use ctop.Prelude.Texts.{Text}
use ctop.Prelude.Assoc.{lookup, insert, delete}

pub record LoginRateLimiter : Type 0 where
  pub failures : List (Text × List ℕ)
  pub max_attempts : ℕ
  pub window_period : ℕ

abbrev positive_or : ℕ → ℤ → ℕ
positive_or d (pos n) = if ltb 0 n then n else d
positive_or d (negsuc n) = d

-- One minute.
abbrev pub default_window : ℕ
default_window = 60000000000

unfoldable pub new_login_rate_limiter : ℤ → ℤ → LoginRateLimiter
new_login_rate_limiter max_attempts window_period = record {
  failures = [];
  max_attempts = positive_or 5 max_attempts;
  window_period = positive_or default_window window_period;
}

-- `t.After(now.Add(-window))`
abbrev pub within : ℕ → ℕ → ℕ → Bool
within window now t = ltb now (t + window)

allow_known : Text → ℕ → LoginRateLimiter → Option (List ℕ) → LoginRateLimiter × Bool
allow_known ip now rl none = (rl, true)
allow_known ip now rl (some attempts) =
    let valid = select (within rl.window_period now) attempts in
    (record rl { failures = insert ip valid rl.failures }, ltb (length valid) rl.max_attempts)

unfoldable pub allow : Text → ℕ → LoginRateLimiter → LoginRateLimiter × Bool
unfolding allow_known
allow ip now rl = allow_known ip now rl (lookup ip rl.failures)

abbrev pub times : Option (List ℕ) → List ℕ
times none = []
times (some ts) = ts

unfoldable pub record_failure : Text → ℕ → LoginRateLimiter → LoginRateLimiter
record_failure ip now rl = record rl {
  failures = insert ip (times (lookup ip rl.failures) ++ now ∷ []) rl.failures;
}

unfoldable pub record_success : Text → LoginRateLimiter → LoginRateLimiter
record_success ip rl = record rl { failures = delete ip rl.failures }
