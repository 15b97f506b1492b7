-- ===== src/Web/Logs/Limit.antt =====
-- How many log entries pkg/web/server.go shows.
use ctop.Prelude.{
  ℕ, zero, suc, ◌+◌, ◌<◌, ◌≡◌, refl, sym, List, [], ◌∷◌, ◌++◌, Option, none, some, arith, length,
  length-append, take, append-nil, append_assoc, Bool-cases, inl, inr,
}
use ctop.Prelude.Int.{ℤ, pos, negsuc, pos_part, ◌<ℤ◌}
use ctop.Prelude.Texts.{Text}
use ctop.Prelude.Split.{atoi}
use ctop.Web.Provider.{LogEntry}
use ctop.Web.Logs.{log_limit, collect_logs, download_logs, log_line, is_tail_all}
use ctop.Web.Preview.{positive_or}

unfoldable pub log_lines : List LogEntry → Text
log_lines [] = []
log_lines (e ∷ es) = log_line e ++ log_lines es

positive_or-positive : (d : ℕ) (n : Option ℤ) → 0 < d → pos 0 <ℤ positive_or (pos d) n
positive_or-positive d none h = omega (arith, h)
positive_or-positive d (some n) h = ground (arith, h)

log_limit-positive : (tail : Text) → pos 0 <ℤ log_limit tail
unfolding log_limit
log_limit-positive [] = omega arith
log_limit-positive (c ∷ cs) = elim (Bool-cases (is_tail_all (c ∷ cs))) [
  | inl e ↦ rw e (omega arith)
  | inr e ↦ rw e (positive_or-positive 100 (atoi (c ∷ cs)) (omega arith))
]

collect_logs-append :
    (n m : ℕ) (es shown : List LogEntry)
    → n ≡ length shown + suc m
    → collect_logs (pos n) shown es ≡ shown ++ take (suc m) es
unfolding collect_logs
collect_logs-append n m [] shown h = sym (append-nil shown)
collect_logs-append n zero (e ∷ es) shown h = ground (arith, h, length-append shown (e ∷ []))
collect_logs-append n (suc m) (e ∷ es) shown h =
    let longer = length-append shown (e ∷ []) in
    let rest = collect_logs-append n m es (shown ++ e ∷ []) (omega arith) in
    let whole = append_assoc shown (e ∷ []) (take (suc m) es) in
    ground (arith, h, longer, rest, whole)

download_logs-take :
    (n m k : ℕ) (es : List LogEntry)
    → n ≡ k + m
    → download_logs (pos n) k es ≡ log_lines (take m es)
unfolding download_logs log_lines
download_logs-take n zero k [] h = refl
download_logs-take n (suc m) k [] h = refl
download_logs-take n zero k (e ∷ es) h = ground (arith, h)
download_logs-take n (suc m) k (e ∷ es) h = ground (arith, h, download_logs-take n m (suc k) es)

logs_shown :
    (limit : ℤ) (es : List LogEntry)
    → pos 0 <ℤ limit
    → (collect_logs limit [] es ≡ take (pos_part limit) es)
      × (download_logs limit 0 es ≡ log_lines (take (pos_part limit) es))
logs_shown (negsuc n) es h = ground arith
logs_shown (pos zero) es h = ground arith
logs_shown (pos (suc n)) es h = (
  collect_logs-append (suc n) n es [] (omega arith),
  download_logs-take (suc n) (suc n) 0 es (omega arith),
)

-- Whatever the `tail` parameter says, the limit is positive, and both log views show the entries that
-- arrive first, up to the limit: one as they are, the other as one line each.
pub log_limit-shown :
    (tail : Text) (es : List LogEntry)
    → (pos 0 <ℤ log_limit tail)
      × (collect_logs (log_limit tail) [] es ≡ take (pos_part (log_limit tail)) es)
      × (download_logs (log_limit tail) 0 es ≡ log_lines (take (pos_part (log_limit tail)) es))
log_limit-shown tail es =
    let (shown, lines) = logs_shown (log_limit tail) es (log_limit-positive tail) in
    (log_limit-positive tail, shown, lines)
