-- ===== src/LogView/Buffer.antt =====
-- The buffer of internal/cwidgets/single/logs.go.
use ctop.Prelude.{
  ℕ, ◌+◌, ◌-◌, ◌<◌, ◌≡◌, refl, sym, ap, ◌∙◌, Bool, List, [], ◌∷◌, ◌++◌, if◌then◌else◌, leb, length,
  drop, set, copy_onto, arith, Bool-cases, inl, inr, append-nil, append_assoc, length-drop,
  length-append, drop-append, drop-drop, map,
}
use ctop.Prelude.Texts.{Text}
use ctop.LogView.{LogEntry, Logs, add, new_logs, max_log_entries}

unfoldable pub add_all : (Text → Text) → List LogEntry → Logs → Logs
unfolding add
add_all format [] l = l
add_all format (e ∷ es) l = add_all format es (add format e l)

module _ {A : Type 0} where
  -- The last `n` of a list, all of a shorter one.
  abbrev pub last : ℕ → List A → List A
  last n xs = drop (length xs - n) xs

  -- Moved by one place, with a new last one.
  set-copy_onto :
      (x : A) (xs : List A) (v : A) → set (copy_onto (x ∷ xs) xs) (length xs) v ≡ xs ++ v ∷ []
  set-copy_onto x [] v = refl
  set-copy_onto x (y ∷ xs) v = ap (◌∷◌ y) (set-copy_onto y xs v)

  -- One entry more in a buffer for `n`.
  abbrev push : ℕ → List A → A → List A
  push n xs v = if leb n (length xs) then set (copy_onto xs (drop 1 xs)) (n - 1) v else xs ++ v ∷ []

  push_full :
      (n : ℕ) (xs : List A) (v : A)
      → length xs ≡ n
      → 0 < n
      → set (copy_onto xs (drop 1 xs)) (n - 1) v ≡ drop 1 xs ++ v ∷ []
  push_full n [] v h p = ground (arith, h, p)
  push_full n (x ∷ xs) v h p =
      let size : length xs ≡ n - 1 = omega (arith, h, p) in rw (sym size) (set-copy_onto x xs v)

  push-last :
      (n : ℕ) (seen : List A) (v : A) → 0 < n → push n (last n seen) v ≡ last n (seen ++ v ∷ [])
  push-last n seen v p =
      let kept = length-drop (length seen - n) seen in
      let size = length-append seen (v ∷ []) in
      elim (Bool-cases (leb n (length (last n seen)))) [
        | inl e ↦
            let full : length (last n seen) ≡ n = ground (arith, e) in
            let skip : length (seen ++ v ∷ []) - n ≡ length seen - n + 1 = ground (arith, e) in
            let tail = drop-append (length seen - n + 1) seen (v ∷ []) (ground (arith, e)) in
            rw (e, skip, tail, sym (drop-drop 1 (length seen - n) seen))
              (push_full n (last n seen) v full p)
        | inr e ↦
            let all_kept : length seen - n ≡ 0 = ground (arith, e) in
            let still : length (seen ++ v ∷ []) - n ≡ 0 = ground (arith, e) in
            rw (e, all_kept, still) refl
      ]

unfoldable pub formatted : (Text → Text) → LogEntry → LogEntry
formatted format e = record e { message = format e.message }

add-entries :
    (format : Text → Text) (e : LogEntry) (l : Logs)
    → (add format e l).entries ≡ push max_log_entries l.entries (formatted format e)
unfolding add formatted
add-entries format e l = elim (Bool-cases (leb max_log_entries (length l.entries))) [
  | inl k ↦ rw k refl
  | inr k ↦ rw k refl
]

add_all-last :
    (format : Text → Text) (es seen : List LogEntry) (l : Logs)
    → l.entries ≡ last max_log_entries seen
    → (add_all format es l).entries ≡ last max_log_entries (seen ++ map (formatted format) es)
unfolding add_all
add_all-last format [] seen l h = rw (append-nil seen) h
add_all-last format (e ∷ es) seen l h =
    let next =
      add-entries format e l
      ∙ ap (λ xs. push max_log_entries xs (formatted format e)) h
      ∙ push-last max_log_entries seen (formatted format e) (omega arith) in
    let rest = add_all-last format es (seen ++ formatted format e ∷ []) (add format e l) next in
    rest
    ∙ ap (last max_log_entries)
        (append_assoc seen (formatted format e ∷ []) (map (formatted format) es))

-- After any log messages, a new log view holds the last 8192 of them, formatted, in their order.
pub add_all-window :
    (format : Text → Text) (wrap : Bool) (es : List LogEntry)
    → (add_all format es (new_logs wrap)).entries ≡ last max_log_entries (map (formatted format) es)
unfolding new_logs
add_all-window format wrap es = add_all-last format es [] (new_logs wrap) refl
