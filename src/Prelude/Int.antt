-- ===== src/Prelude/Int.antt =====
-- Signed integers over the native numbers, and the 64-bit arithmetic of Go's `int` and `int64`.
use Prim.Native.Nat.{ℕ, suc, ◌+◌, ◌-◌, ◌%◌, ◌≤◌, ◌<◌}
use mathlib.Core.Path.{◌≡◌, ap, ◌∙◌}
use mathlib.Core.Bool.{Bool, true}
use native.Mathlib.Omega.{arith}
use ctop.Prelude.Tests.{ltb, leb, ◌==◌, if◌then◌else◌}

-- `negsuc n` is -(n + 1).
pub data ℤ : Type 0 where
  pos : ℕ → ℤ
  negsuc : ℕ → ℤ

abbrev pub pos_part : ℤ → ℕ
pos_part (pos n) = n
pos_part (negsuc n) = 0

abbrev pub neg_part : ℤ → ℕ
neg_part (pos n) = 0
neg_part (negsuc n) = suc n

-- a - b, as an integer.
abbrev pub sub_ℕ : ℕ → ℕ → ℤ
sub_ℕ a b = if leb b a then pos (a - b) else negsuc (b - a - 1)

infixl 65 ◌+ℤ◌ ◌-ℤ◌
unfoldable pub ◌+ℤ◌ : ℤ → ℤ → ℤ
a +ℤ b = sub_ℕ (pos_part a + pos_part b) (neg_part a + neg_part b)

unfoldable pub ◌-ℤ◌ : ℤ → ℤ → ℤ
a -ℤ b = sub_ℕ (pos_part a + neg_part b) (neg_part a + pos_part b)

infix 50 ◌<ℤ◌ ◌≤ℤ◌
abbrev pub ◌<ℤ◌ : ℤ → ℤ → Type 0
a <ℤ b = pos_part a + neg_part b < pos_part b + neg_part a

abbrev pub ◌≤ℤ◌ : ℤ → ℤ → Type 0
a ≤ℤ b = pos_part a + neg_part b ≤ pos_part b + neg_part a

-- The tests `a < b`, `a <= b` and `a == b`.
abbrev pub int_lt : ℤ → ℤ → Bool
int_lt a b = ltb (pos_part a + neg_part b) (pos_part b + neg_part a)

abbrev pub int_le : ℤ → ℤ → Bool
int_le a b = leb (pos_part a + neg_part b) (pos_part b + neg_part a)

abbrev pub int_eq : ℤ → ℤ → Bool
int_eq a b = (pos_part a + neg_part b) == (pos_part b + neg_part a)

-- Two's complement: the 64-bit pattern of an integer, and the integer of a pattern.
abbrev pub word64 : ℕ
word64 = 18446744073709551616

to_word : ℤ → ℕ
to_word (pos n) = n % word64
to_word (negsuc n) = word64 - 1 - n % word64

of_word : ℕ → ℤ
of_word w = if ltb w 9223372036854775808 then pos w else negsuc (word64 - 1 - w)

-- Addition of `int64` values.
unfoldable pub add64 : ℤ → ℤ → ℤ
unfolding ◌+ℤ◌ to_word of_word
add64 a b = of_word (to_word (a +ℤ b))

-- Subtraction of `int64` values.
unfoldable pub sub64 : ℤ → ℤ → ℤ
unfolding ◌-ℤ◌ to_word of_word
sub64 a b = of_word (to_word (a -ℤ b))

pub add64-pos : (a b : ℕ) → a + b < 9223372036854775808 → add64 (pos a) (pos b) ≡ pos (a + b)
unfolding add64
add64-pos a b h = ground arith

to_word_lt : (a : ℤ) → to_word a < word64
unfolding to_word
to_word_lt (pos n) = omega arith
to_word_lt (negsuc n) = omega arith

to_word-of_word : (w : ℕ) → w < word64 → to_word (of_word w) ≡ w
unfolding to_word of_word
to_word-of_word w h = ground arith

to_word-sub_ℕ : (a b : ℕ) → to_word (sub_ℕ a b) ≡ (a % word64 + (word64 - b % word64)) % word64
unfolding to_word
to_word-sub_ℕ a b = ground arith

to_word-parts :
    (a : ℤ) → to_word a ≡ (pos_part a % word64 + (word64 - neg_part a % word64)) % word64
unfolding to_word
to_word-parts (pos n) = omega arith
to_word-parts (negsuc n) = omega arith

to_word-add : (a b : ℤ) → to_word (a +ℤ b) ≡ (to_word a + to_word b) % word64
unfolding ◌+ℤ◌
to_word-add a b =
    let sum = to_word-sub_ℕ (pos_part a + pos_part b) (neg_part a + neg_part b) in
    let left = to_word-parts a in let right = to_word-parts b in omega arith

to_word-add64 : (a b : ℤ) → to_word (add64 a b) ≡ (to_word a + to_word b) % word64
unfolding add64
to_word-add64 a b = to_word-of_word (to_word (a +ℤ b)) (to_word_lt (a +ℤ b)) ∙ to_word-add a b

-- The order in which two values are added makes no difference, also where a sum wraps around.
pub add64-swap : (a b c : ℤ) → add64 (add64 a b) c ≡ add64 (add64 a c) b
unfolding add64
add64-swap a b c =
    let first = to_word-add64 a b in
    let second = to_word-add64 a c in
    let left = to_word-add (add64 a b) c in
    let right = to_word-add (add64 a c) b in ap of_word (omega arith)

pub int_eq-eq : (a b : ℤ) → int_eq a b ≡ true → a ≡ b
int_eq-eq a b h = ground arith
