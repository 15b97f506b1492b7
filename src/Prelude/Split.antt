-- ===== src/Prelude/Split.antt =====
-- More functions of Go's `strings` package and `strconv.Atoi` and `Itoa`, on lists of bytes.
use Prim.Native.Nat.{ℕ, zero, suc, ◌+◌, ◌-◌, ◌*◌, ◌/◌, ◌%◌}
use mathlib.Core.Path.{◌≡◌, refl, sym, ap, ◌∙◌}
use mathlib.Core.Logic.{◌⊎◌, inl, inr}
use mathlib.Core.Bool.{Bool, true, false, ◌&&◌, ◌||◌}
use mathlib.Core.Option.{Option, none, some}
use mathlib.Core.List.{List, [], ◌∷◌, ◌++◌, reverse, reverse-cons, reverse-append, reverse-reverse}
use native.Mathlib.Omega.{arith}
use ctop.Prelude.Tests.{ltb, leb, ◌==◌, if◌then◌else◌, Bool-cases}
use ctop.Prelude.Lists.{length, All, All-reverse}
use ctop.Prelude.Int.{ℤ, pos, negsuc}
use ctop.Prelude.Texts.{
  Text, codes, is_space, trim_left, trim_space, has_prefix, trim_prefix, text_eq, to_lower,
}

-- `strings.HasSuffix s p`, and `strings.TrimSuffix`.
unfoldable pub has_suffix : Text → Text → Bool
unfolding has_prefix
has_suffix s p = has_prefix (reverse s) (reverse p)

unfoldable pub trim_suffix : Text → Text → Text
unfolding trim_prefix
trim_suffix s p = reverse (trim_prefix (reverse s) (reverse p))

-- `strings.EqualFold` on ASCII text.
abbrev pub equal_fold : Text → Text → Bool
equal_fold a b = text_eq (to_lower a) (to_lower b)

-- `strings.ContainsAny s chars` for ASCII characters; `strings.ContainsRune`.
unfoldable pub has_byte : ℕ → Text → Bool
has_byte c [] = false
has_byte c (x ∷ xs) = x == c || has_byte c xs

unfoldable pub contains_any : Text → Text → Bool
unfolding has_byte
contains_any [] chars = false
contains_any (c ∷ cs) chars = has_byte c chars || contains_any cs chars

-- `strings.Split` at bytes that satisfy a test: the parts, the empty ones too.
abbrev pub onto_first : ℕ → List Text → List Text
onto_first c [] = (c ∷ []) ∷ []
onto_first c (p ∷ ps) = (c ∷ p) ∷ ps

unfoldable pub split_at : (ℕ → Bool) → Text → List Text
split_at sep [] = [] ∷ []
split_at sep (c ∷ cs) = let rest = split_at sep cs in if sep c then [] ∷ rest else onto_first c rest

-- `strings.Split s sep` for a separator of one byte.
abbrev pub split : ℕ → Text → List Text
split sep s = split_at (λ c. c == sep) s

-- `strings.Split s sep` for a separator that is the byte `c` repeated `suc n` times: `run` counts the
-- separator's bytes that stand right before the rest.
abbrev pub repeated : ℕ → ℕ → Text
repeated c zero = []
repeated c (suc n) = c ∷ repeated c n

abbrev pub prepend : Text → List Text → List Text
prepend s [] = s ∷ []
prepend s (p ∷ ps) = (s ++ p) ∷ ps

unfoldable pub split_run : ℕ → ℕ → ℕ → Text → List Text
split_run c n run [] = repeated c run ∷ []
split_run c n run (x ∷ xs) =
    let cut_here = split_run c n 0 xs in
    let longer = split_run c n (run + 1) xs in
    if x == c
    then if run == n then [] ∷ cut_here else longer
    else prepend (repeated c run) (onto_first x cut_here)

-- `strings.TrimRight s` of one byte.
unfoldable pub trim_right_byte : ℕ → Text → Text
trim_right_byte b [] = []
trim_right_byte b (c ∷ cs) = elim (trim_right_byte b cs) [
  | [] ↦ if c == b then [] else c ∷ []
  | d ∷ ds ↦ c ∷ d ∷ ds
]

-- `strings.TrimLeft`, `TrimRight` and `Trim` of the bytes of a cutset.
unfoldable pub trim_left_of : Text → Text → Text
unfolding has_byte
trim_left_of chars [] = []
trim_left_of chars (c ∷ cs) =
    let rest = trim_left_of chars cs in if has_byte c chars then rest else c ∷ cs

unfoldable pub trim_of : Text → Text → Text
unfolding trim_left_of
trim_of chars s = reverse (trim_left_of chars (reverse (trim_left_of chars s)))

-- `strings.ReplaceAll s old new` for an `old` that is not empty: `skip` bytes of a match are still to
-- be passed over.
unfoldable pub replace_from : Text → Text → ℕ → Text → Text
unfolding has_prefix
replace_from old new skip [] = []
replace_from old new (suc skip) (c ∷ cs) = replace_from old new skip cs
replace_from old new zero (c ∷ cs) =
    let past = replace_from old new (length old - 1) cs in
    let rest = replace_from old new 0 cs in
    if has_prefix (c ∷ cs) old then new ++ past else c ∷ rest

abbrev pub replace_all : Text → Text → Text → Text
replace_all old new s = replace_from old new 0 s

-- `strings.FieldsFunc`: the parts that are not empty.
abbrev pub non_empty : List Text → List Text
non_empty [] = []
non_empty ([] ∷ ps) = non_empty ps
non_empty ((c ∷ cs) ∷ ps) = (c ∷ cs) ∷ non_empty ps

abbrev pub fields_func : (ℕ → Bool) → Text → List Text
fields_func sep s = non_empty (split_at sep s)

-- What stands before and behind the last byte `sep`, none without one: `s[:i]` and `s[i+1:]` for
-- `i := strings.LastIndex(s, sep)`.
abbrev pub last_cut_at : ℕ → ℕ → Text → Option (Text × Text) → Option (Text × Text)
last_cut_at sep c cs none = if c == sep then some ([], cs) else none
last_cut_at sep c cs (some (before, behind)) = some (c ∷ before, behind)

unfoldable pub last_cut : ℕ → Text → Option (Text × Text)
last_cut sep [] = none
last_cut sep (c ∷ cs) = last_cut_at sep c cs (last_cut sep cs)

unfoldable pub join_with : Text → List Text → Text
join_with sep [] = []
join_with sep (p ∷ []) = p
join_with sep (p ∷ q ∷ ps) = p ++ sep ++ join_with sep (q ∷ ps)

-- `strconv.Atoi`: an optional sign and decimal digits, an error past the range of `int`.
abbrev pub is_digit : ℕ → Bool
is_digit c = leb b'0' c && leb c b'9'

unfoldable pub digits_value : ℕ → Text → Option ℕ
digits_value n [] = some n
digits_value n (c ∷ cs) =
    let rest = digits_value (n * 10 + (c - b'0')) cs in if is_digit c then rest else none

abbrev pub in_int : ℕ → Option ℕ → Option ℕ
in_int top none = none
in_int top (some n) = if ltb n top then some n else none

abbrev pub natural : Text → Option ℕ
natural [] = none
natural (c ∷ cs) = digits_value 0 (c ∷ cs)

abbrev pub negated : Option ℕ → Option ℤ
negated none = none
negated (some zero) = some (pos 0)
negated (some (suc n)) = some (negsuc n)

abbrev pub posited : Option ℕ → Option ℤ
posited none = none
posited (some n) = some (pos n)

unfoldable pub atoi : Text → Option ℤ
unfolding digits_value
atoi [] = none
atoi (c ∷ cs) =
    if c == b'-'
    then negated (in_int 9223372036854775809 (natural cs))
    else if c == b'+'
    then posited (in_int 9223372036854775808 (natural cs))
    else posited (in_int 9223372036854775808 (natural (c ∷ cs)))

-- `strconv.Itoa`, with fuel for the digits; 20 digits hold every 64-bit number.
unfoldable pub digits_of : ℕ → ℕ → Text → Text
digits_of zero n out = out
digits_of (suc fuel) n out =
    let out' = (b'0' + n % 10) ∷ out in
    let rest = digits_of fuel (n / 10) out' in if ltb n 10 then out' else rest

unfoldable pub itoa : ℤ → Text
unfolding digits_of
itoa (pos n) = digits_of 20 n []
itoa (negsuc n) = b'-' ∷ digits_of 20 (n + 1) []

trim_left_idem : (s : Text) → trim_left (trim_left s) ≡ trim_left s
unfolding trim_left
trim_left_idem [] = refl
trim_left_idem (c ∷ cs) = ground (arith, trim_left_idem cs)

-- Behind a byte that is no space, trimming stops.
trim_left-snoc :
    (s : Text) (c : ℕ) → is_space c ≡ false → trim_left (s ++ c ∷ []) ≡ trim_left s ++ c ∷ []
unfolding trim_left
trim_left-snoc [] c h = ground (arith, h)
trim_left-snoc (x ∷ s) c h = ground (arith, trim_left-snoc s c h)

-- `trim_left` leaves nothing, or something that starts with no space.
trim_left-cases :
    (s : Text)
    → (trim_left s ≡ []) ⊎ ((c : ℕ) × (cs : Text) × (trim_left s ≡ c ∷ cs) × (is_space c ≡ false))
unfolding trim_left
trim_left-cases [] = inl refl
trim_left-cases (c ∷ cs) = elim (Bool-cases (is_space c)) [
  | inl e ↦ rw e (trim_left-cases cs)
  | inr e ↦ rw e (inr (c, cs, refl, e))
]

trim_right : Text → Text
trim_right s = reverse (trim_left (reverse s))

trim_right-cons : (c : ℕ) (cs : Text) → is_space c ≡ false → trim_right (c ∷ cs) ≡ c ∷ trim_right cs
unfolding trim_right
trim_right-cons c cs h =
    rw (reverse-cons c cs, trim_left-snoc (reverse cs) c h)
      (reverse-append (trim_left (reverse cs)) (c ∷ []))

trim_right_idem : (s : Text) → trim_right (trim_right s) ≡ trim_right s
unfolding trim_right
trim_right_idem s = rw (reverse-reverse (trim_left (reverse s)), trim_left_idem (reverse s)) refl

trim_left-cons : (c : ℕ) (cs : Text) → is_space c ≡ false → trim_left (c ∷ cs) ≡ c ∷ cs
unfolding trim_left
trim_left-cons c cs h = rw h refl

trim_space-trim_right : (s : Text) → trim_space s ≡ trim_right (trim_left s)
unfolding trim_space trim_right
trim_space-trim_right s = refl

trimmed_nothing :
    (s : Text) → trim_space s ≡ trim_right [] → trim_space (trim_space s) ≡ trim_space s
unfolding trim_right trim_space trim_left
trimmed_nothing s e = rw e refl

-- Trimming what is trimmed changes nothing.
pub trim_space_idem : (s : Text) → trim_space (trim_space s) ≡ trim_space s
trim_space_idem s =
    let once = trim_space-trim_right s in
    let twice = trim_space-trim_right (trim_space s) in
    elim (trim_left-cases s) [
      | inl e ↦ trimmed_nothing s (once ∙ ap trim_right e)
      | inr (c, cs, e, h) ↦
          let head : trim_space s ≡ c ∷ trim_right cs =
            once ∙ ap trim_right e ∙ trim_right-cons c cs h in
          twice
          ∙ ap (λ t. trim_right (trim_left t)) head
          ∙ ap trim_right (trim_left-cons c (trim_right cs) h)
          ∙ trim_right-cons c (trim_right cs) h
          ∙ ap (◌∷◌ c) (trim_right_idem cs)
          ∙ sym head
    ]

trim_left-space :
    (s : Text) (c : ℕ)
    → is_space c ≡ true
    → (trim_left (s ++ c ∷ []) ≡ trim_left s ++ c ∷ [])
      ⊎ ((trim_left s ≡ []) × (trim_left (s ++ c ∷ []) ≡ []))
unfolding trim_left
trim_left-space [] c h = ground (arith, h)
trim_left-space (x ∷ s) c h = ground (arith, trim_left-space s c h)

trim_right-space : (s : Text) (c : ℕ) → is_space c ≡ true → trim_right (s ++ c ∷ []) ≡ trim_right s
unfolding trim_right trim_left
trim_right-space s c h = rw (reverse-append s (c ∷ []), h) refl

-- White space at the end is trimmed.
pub trim_space-space :
    (s : Text) (c : ℕ) → is_space c ≡ true → trim_space (s ++ c ∷ []) ≡ trim_space s
trim_space-space s c h =
    let whole = trim_space-trim_right (s ++ c ∷ []) in
    let same = trim_space-trim_right s in
    elim (trim_left-space s c h) [
      | inl e ↦ whole ∙ ap trim_right e ∙ trim_right-space (trim_left s) c h ∙ sym same
      | inr (e, k) ↦ whole ∙ ap trim_right k ∙ sym (same ∙ ap trim_right e)
    ]

trim_left-solid : (s : Text) → All (λ c. is_space c ≡ false) s → trim_left s ≡ s
unfolding trim_left
trim_left-solid [] h = refl
trim_left-solid (c ∷ cs) (p, h) = rw p refl

-- Where no byte is white space nothing is trimmed.
pub trim_space-solid : (s : Text) → All (λ c. is_space c ≡ false) s → trim_space s ≡ s
unfolding trim_right
trim_space-solid s h =
    trim_space-trim_right s
    ∙ ap trim_right (trim_left-solid s h)
    ∙ ap reverse (trim_left-solid (reverse s) (All-reverse (λ c. is_space c ≡ false) s h))
    ∙ reverse-reverse s

atoi_run :
    (atoi (codes "8080") ≡ some (pos 8080))
    × (atoi (codes "-7") ≡ some (negsuc 6))
    × (atoi (codes "80/tcp") ≡ none)
    × (atoi (codes "9223372036854775808") ≡ none)
unfolding atoi digits_value
atoi_run = (refl, refl, refl, refl)

itoa_run : itoa (pos 8080) ≡ codes "8080"
unfolding itoa digits_of
itoa_run = refl

split_run_run : split_run b':' 2 0 (codes "a:::b::c") ≡ codes "a" ∷ codes "b::c" ∷ []
unfolding split_run
split_run_run = refl
