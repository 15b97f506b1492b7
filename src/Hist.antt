-- ===== src/Hist.antt =====
-- internal/cwidgets/single/hist.go: the values that a gauge draws. `IntHist` and `FloatHist` are one
-- record over the type of the values and its zero. The size of a new one is a natural number, as
-- `make` panics on others; an `int` is 64 bits wide.
pub mod Window
mod Tests
use ctop.Prelude.{
  ℕ, ◌+◌, ◌-◌, Bool, ◌&&◌, List, [], ◌∷◌, ◌++◌, if◌then◌else◌, ltb, leb, length, drop, replicate,
}
use ctop.Prelude.Int.{ℤ, pos, negsuc, int_le, sub64}
use ctop.Prelude.Texts.{Text}

pub record Hist (A : Type 0) : Type 0 where
  pub limit : ℕ
  pub val : A
  pub values : List A
  pub labels : List Text

module _ {A : Type 0} (zero_value : A) where
  unfoldable pub new_hist : ℕ → Hist A
  new_hist max = record {
    limit = max;
    val = zero_value;
    values = replicate max zero_value;
    labels = replicate max [];
  }

  abbrev resize : ℕ → Hist A → Hist A
  resize limit h = record h {
    limit = limit;
    values =
        if ltb limit (length h.values)
        then drop (length h.values - limit) h.values
        else if ltb (length h.values) limit
        then replicate (limit - length h.values) zero_value ++ h.values
        else h.values;
  }

  unfoldable pub set_limit : ℤ → Hist A → Hist A
  set_limit (pos limit) h = if leb limit 0 then h else resize limit h
  set_limit (negsuc n) h = h

unfoldable pub append : {A : Type 0} → A → Hist A → Hist A
append val h = record h {
  values =
      if leb h.limit (length h.values) && ltb 0 h.limit
      then drop (length h.values - h.limit + 1) h.values ++ val ∷ []
      else h.values ++ val ∷ [];
  val = val;
}

pub record DiffHist : Type 0 where
  pub hist : Hist ℤ
  pub last_val : ℤ

unfoldable pub new_diff_hist : ℕ → DiffHist
unfolding new_hist
new_diff_hist max = record { hist = new_hist (pos 0) max; last_val = negsuc 0 }

unfoldable pub append_diff : ℤ → DiffHist → DiffHist
unfolding append
append_diff val h = record {
  hist = if int_le (pos 0) h.last_val then append (sub64 val h.last_val) h.hist else h.hist;
  last_val = val;
}
