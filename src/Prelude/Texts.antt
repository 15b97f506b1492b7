-- ===== src/Prelude/Texts.antt =====
-- Go strings as lists of byte values, with the functions of Go's `strings` package that the program
-- calls. Case folding and white space are those of ASCII text.
use Prim.Native.Nat.{ℕ, ◌+◌}
use Prim.Native.Char.{code}
use Prim.Native.String.{String}
use mathlib.Core.Path.{◌≡◌, refl}
use mathlib.Core.Logic.{◌↔◌}
use mathlib.Core.Bool.{Bool, true, false, ◌&&◌, ◌||◌}
use mathlib.Core.List.{List, [], ◌∷◌, ◌++◌, map, reverse}
use native.Mathlib.Omega.{arith}
use ctop.Prelude.Tests.{ltb, leb, ◌==◌, if◌then◌else◌}

abbrev pub Text : Type 0
Text = List ℕ

-- The bytes of an ASCII literal.
abbrev pub codes : String → Text
codes String.[] = []
codes (String.◌∷◌ c s) = code c ∷ codes s

-- `a == b` on strings.
unfoldable pub text_eq : Text → Text → Bool
text_eq [] [] = true
text_eq (x ∷ xs) (y ∷ ys) = x == y && text_eq xs ys
text_eq _ _ = false

-- `a < b` on strings: bytewise, a proper prefix comes first.
unfoldable pub text_lt : Text → Text → Bool
text_lt [] [] = false
text_lt [] (y ∷ ys) = true
text_lt (x ∷ xs) [] = false
text_lt (x ∷ xs) (y ∷ ys) = ltb x y || (x == y && text_lt xs ys)

unfoldable pub lower_byte : ℕ → ℕ
lower_byte c = if leb b'A' c && leb c b'Z' then c + 32 else c

-- `strings.ToLower`.
unfoldable pub to_lower : Text → Text
unfolding lower_byte
to_lower = map lower_byte

-- space, \t \n \v \f \r
abbrev pub is_space : ℕ → Bool
is_space c = c == 32 || (leb 9 c && leb c 13)

unfoldable pub trim_left : Text → Text
trim_left [] = []
trim_left (c ∷ cs) = let rest = trim_left cs in if is_space c then rest else c ∷ cs

-- `strings.TrimSpace`.
unfoldable pub trim_space : Text → Text
unfolding trim_left
trim_space s = reverse (trim_left (reverse (trim_left s)))

-- `strings.HasPrefix s prefix`, and `strings.TrimPrefix`.
unfoldable pub has_prefix : Text → Text → Bool
has_prefix s [] = true
has_prefix [] (p ∷ ps) = false
has_prefix (c ∷ cs) (p ∷ ps) = c == p && has_prefix cs ps

abbrev pub drop_as : Text → Text → Text
drop_as s [] = s
drop_as [] (p ∷ ps) = []
drop_as (c ∷ cs) (p ∷ ps) = drop_as cs ps

unfoldable pub trim_prefix : Text → Text → Text
unfolding has_prefix
trim_prefix s p = if has_prefix s p then drop_as s p else s

-- `strings.Contains s sub`.
unfoldable pub contains : Text → Text → Bool
unfolding has_prefix
contains [] sub = has_prefix [] sub
contains (c ∷ cs) sub = has_prefix (c ∷ cs) sub || contains cs sub

-- `strings.Fields`: the maximal runs of bytes that are no spaces.
fields_onto : Text → Text → List Text
fields_onto [] [] = []
fields_onto [] (w ∷ ws) = reverse (w ∷ ws) ∷ []
fields_onto (c ∷ cs) [] = fields_onto cs (if is_space c then [] else c ∷ [])
fields_onto (c ∷ cs) (w ∷ ws) =
    let next = reverse (w ∷ ws) ∷ fields_onto cs [] in
    let more = fields_onto cs (c ∷ w ∷ ws) in if is_space c then next else more

unfoldable pub fields : Text → List Text
unfolding fields_onto
fields s = fields_onto s []

-- `strings.Cut s sep` for a separator of one byte; with no separator, the whole and "".
unfoldable pub cut : ℕ → Text → Text × Text
cut sep [] = ([], [])
cut sep (c ∷ cs) = let rest = cut sep cs in if c == sep then ([], cs) else (c ∷ rest.0, rest.1)

pub text_eq_iff : (a b : Text) → (text_eq a b ≡ true) ↔ (a ≡ b)
unfolding text_eq
text_eq_iff (x ∷ a) (y ∷ b) = ground (arith, text_eq_iff a b)
text_eq_iff _ _ = ground arith

pub text_eq_self : (a : Text) → text_eq a a ≡ true
text_eq_self a = (text_eq_iff a a).1 refl

pub text_lt_irrefl : (a : Text) → text_lt a a ≡ false
unfolding text_lt
text_lt_irrefl [] = refl
text_lt_irrefl (x ∷ a) = ground (arith, text_lt_irrefl a)

pub text_lt_asymm : (a b : Text) → text_lt a b ≡ true → text_lt b a ≡ false
unfolding text_lt
text_lt_asymm (x ∷ a) (y ∷ b) h = ground (arith, text_lt_asymm a b)
text_lt_asymm _ _ h = ground arith

pub text_lt_total : (a b : Text) → text_lt a b ≡ false → text_lt b a ≡ false → a ≡ b
unfolding text_lt
text_lt_total (x ∷ a) (y ∷ b) h k = ground (arith, text_lt_total a b)
text_lt_total _ _ h k = ground arith

pub text_lt_trans : (a b c : Text) → text_lt a b ≡ true → text_lt b c ≡ true → text_lt a c ≡ true
unfolding text_lt
text_lt_trans (x ∷ a) (y ∷ b) (z ∷ c) h k = ground (arith, text_lt_trans a b c)
text_lt_trans _ _ _ h k = ground arith

fields_onto-append :
    (s t w : Text) → fields_onto (s ++ 32 ∷ t) w ≡ fields_onto s w ++ fields_onto t []
unfolding fields_onto
fields_onto-append [] t [] = refl
fields_onto-append [] t (x ∷ w) = refl
fields_onto-append (c ∷ s) t [] = fields_onto-append s t (if is_space c then [] else c ∷ [])
fields_onto-append (c ∷ s) t (x ∷ w) =
    ground (arith, fields_onto-append s t [], fields_onto-append s t (c ∷ x ∷ w))

-- The words of two texts with a space between are the words of the one, then those of the other.
pub fields-append : (s t : Text) → fields (s ++ 32 ∷ t) ≡ fields s ++ fields t
unfolding fields
fields-append s t = fields_onto-append s t []

fields_run : fields (codes " status=up  web\tx ") ≡ codes "status=up" ∷ codes "web" ∷ codes "x" ∷ []
unfolding fields
fields_run = refl

trim_run : trim_space (codes "  a b ") ≡ codes "a b"
unfolding trim_space
trim_run = refl
