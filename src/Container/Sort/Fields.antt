-- ===== src/Container/Sort/Fields.antt =====
-- Each comparator of pkg/container/sort.go by itself.
use mathlib.Core.Path.{subst}
use ctop.Prelude.{◌≡◌, Bool, true, false, arith, ◌⊎◌, inl, inr, Bool-cases}
use ctop.Prelude.Int.{ℤ}
use ctop.Prelude.Texts.{
  Text, text_lt, to_lower, text_eq_iff, text_lt_asymm, text_lt_total, text_lt_trans,
}
use ctop.Container.{Container}
use ctop.Container.Sort.{
  SortField, id, name, cpu, mem, mem_percent, net, pids, io, state, uptime, compose, sorters,
  name_of, name_sorter, id_sorter, state_sorter, by_number, uptime_of, sum_net, sum_io,
}

pub text_lt_cotrans :
    (a b c : Text) → text_lt a c ≡ true → (text_lt a b ≡ true) ⊎ (text_lt b c ≡ true)
text_lt_cotrans a b c h = elim (Bool-cases (text_lt a b)) [
  | inl e ↦ inl e
  | inr e ↦ elim (Bool-cases (text_lt b a)) [
    | inl k ↦ inr (text_lt_trans b a c k h)
    | inr k ↦ inr (subst (λ t. text_lt t c ≡ true) (text_lt_total a b e k) h)
  ]
]

-- A strict weak order, as a test: nothing is below itself or both ways, and what lies between the ends
-- of a step is apart from one of them.
pub record StrictWeak {ℓ} (A : Type ℓ) (lt : A → A → Bool) : Type ℓ where
  pub asymm : (a b : A) → lt a b ≡ true → lt b a ≡ false
  pub cotrans : (a b c : A) → lt a c ≡ true → (lt a b ≡ true) ⊎ (lt b c ≡ true)

-- The order of a larger number first, with `nlt` between equals, on one step and through a third.
by_number-asymm :
    (n : Container → ℤ) (a b : Container) → by_number n a b ≡ true → by_number n b a ≡ false
unfolding name_sorter
by_number-asymm n a b h = ground (arith, text_lt_asymm (name_of a) (name_of b))

by_number-cotrans :
    (n : Container → ℤ) (a b c : Container)
    → by_number n a c ≡ true
    → (by_number n a b ≡ true) ⊎ (by_number n b c ≡ true)
unfolding name_sorter
by_number-cotrans n a b c h = ground (arith, text_lt_cotrans (name_of a) (name_of b) (name_of c))

by_number-StrictWeak : (n : Container → ℤ) → StrictWeak Container (by_number n)
by_number-StrictWeak n = record { asymm = by_number-asymm n; cotrans = by_number-cotrans n }

id_sorter-StrictWeak : StrictWeak Container id_sorter
unfolding id_sorter
id_sorter-StrictWeak = record {
  asymm = λ a b. text_lt_asymm (to_lower a.id) (to_lower b.id);
  cotrans = λ a b c. text_lt_cotrans (to_lower a.id) (to_lower b.id) (to_lower c.id);
}

name_sorter-StrictWeak : StrictWeak Container name_sorter
unfolding name_sorter
name_sorter-StrictWeak = record {
  asymm = λ a b. text_lt_asymm (name_of a) (name_of b);
  cotrans = λ a b c. text_lt_cotrans (name_of a) (name_of b) (name_of c);
}

state_sorter-StrictWeak : StrictWeak Container state_sorter
unfolding state_sorter
state_sorter-StrictWeak = record {
  asymm = λ a b h. ground (
    arith,
    h,
    text_lt_asymm (name_of a) (name_of b),
    text_lt_asymm (to_lower a.id) (to_lower b.id),
    text_eq_iff (name_of a) (name_of b),
    text_eq_iff (name_of b) (name_of a),
  );
  cotrans = λ a b c h. ground (
    arith,
    h,
    text_lt_cotrans (name_of a) (name_of b) (name_of c),
    text_lt_cotrans (to_lower a.id) (to_lower b.id) (to_lower c.id),
    text_lt_total (name_of a) (name_of b),
    text_lt_total (name_of b) (name_of c),
    text_eq_iff (name_of a) (name_of b),
    text_eq_iff (name_of b) (name_of c),
    text_eq_iff (name_of a) (name_of c),
  );
}

uptime-StrictWeak : StrictWeak Container (sorters uptime)
unfolding sorters name_sorter
uptime-StrictWeak = record {
  asymm = λ a b h. ground (
    arith,
    h,
    text_lt_asymm (name_of a) (name_of b),
    text_lt_asymm (uptime_of b) (uptime_of a),
    text_eq_iff (uptime_of a) (uptime_of b),
    text_eq_iff (uptime_of b) (uptime_of a),
  );
  cotrans = λ a b c h. ground (
    arith,
    h,
    text_lt_cotrans (name_of a) (name_of b) (name_of c),
    text_lt_cotrans (uptime_of c) (uptime_of b) (uptime_of a),
    text_lt_total (uptime_of a) (uptime_of b),
    text_lt_total (uptime_of b) (uptime_of c),
    text_eq_iff (uptime_of a) (uptime_of b),
    text_eq_iff (uptime_of b) (uptime_of c),
    text_eq_iff (uptime_of a) (uptime_of c),
  );
}

-- Within one project, the compose order is that of the names.
abbrev pub within_project : SortField → SortField
within_project compose = name
within_project f = f

pub sorters-StrictWeak : (f : SortField) → StrictWeak Container (sorters (within_project f))
unfolding sorters
sorters-StrictWeak id = id_sorter-StrictWeak
sorters-StrictWeak name = name_sorter-StrictWeak
sorters-StrictWeak cpu = by_number-StrictWeak (λ c. c.metrics.cpu_util)
sorters-StrictWeak mem = by_number-StrictWeak (λ c. c.metrics.mem_usage)
sorters-StrictWeak mem_percent = by_number-StrictWeak (λ c. c.metrics.mem_percent)
sorters-StrictWeak net = by_number-StrictWeak sum_net
sorters-StrictWeak pids = by_number-StrictWeak (λ c. c.metrics.pids)
sorters-StrictWeak io = by_number-StrictWeak sum_io
sorters-StrictWeak state = state_sorter-StrictWeak
sorters-StrictWeak uptime = uptime-StrictWeak
sorters-StrictWeak compose = name_sorter-StrictWeak
