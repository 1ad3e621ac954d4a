-- ===== src/Common/Int64.antt =====
-- Go's int64 and its conversions to and from uint64. A value is an integer between the two bounds;
-- a sum wraps through the 64-bit pattern. `negsuc n` is -(n + 1).
use Prim.Native.Nat.{ℕ, suc, ◌+◌, ◌-◌, ◌%◌, ◌≤◌, ◌<◌}
use mathlib.Core.Bool.{Bool, true, false}
use mathlib.Core.Path.{◌≡◌}
use mathlib.Core.Logic.{◌⊎◌}
use native.Mathlib.Omega.{arith}
use mini_enclava_go.Common.Tests.{ltb, leb, if◌then◌else◌}

pub data ℤ : Type 0 where
  pos : ℕ → ℤ
  negsuc : ℕ → ℤ

-- 2 ^ 64, 2 ^ 63 and math.MaxInt64.
abbrev pub word : ℕ
word = 18446744073709551616

abbrev pub half_word : ℕ
half_word = 9223372036854775808

abbrev pub max_int64 : ℕ
max_int64 = 9223372036854775807

abbrev pub pos_part : ℤ → ℕ
pos_part (pos n) = n
pos_part (negsuc n) = 0

abbrev pub neg_part : ℤ → ℕ
neg_part (pos n) = 0
neg_part (negsuc n) = suc n

abbrev pub sub_ℕ : ℕ → ℕ → ℤ
sub_ℕ a b = if leb b a then pos (a - b) else negsuc (b - a - 1)

-- The exact sum.
infixl 65 ◌+ℤ◌
abbrev pub ◌+ℤ◌ : ℤ → ℤ → ℤ
a +ℤ b = sub_ℕ (pos_part a + pos_part b) (neg_part a + neg_part b)

infix 50 ◌≤ℤ◌
abbrev pub ◌≤ℤ◌ : ℤ → ℤ → Type 0
a ≤ℤ b = pos_part a + neg_part b ≤ pos_part b + neg_part a

abbrev pub ltb_ℤ : ℤ → ℤ → Bool
ltb_ℤ a b = ltb (pos_part a + neg_part b) (pos_part b + neg_part a)

-- The values of the type int64.
abbrev pub Fits : ℤ → Type 0
Fits (pos n) = n < half_word
Fits (negsuc n) = n < half_word

abbrev pub is_negative : ℤ → Bool
is_negative (pos n) = false
is_negative (negsuc n) = true

-- `uint64(a)` and `int64(w)`.
abbrev pub to_word : ℤ → ℕ
to_word (pos n) = n % word
to_word (negsuc n) = (word - 1 - n % word) % word

abbrev pub of_word : ℕ → ℤ
of_word w = if ltb w half_word then pos w else negsuc (word - 1 - w)

-- `a + b` on int64.
unfoldable pub add64 : ℤ → ℤ → ℤ
add64 a b = of_word ((to_word a + to_word b) % word)

pub Fits-decided : (a : ℤ) → Fits a ⊎ (¬ Fits a)
Fits-decided (pos n) = ground arith
Fits-decided (negsuc n) = ground arith

-- Where the exact sum is an int64, `+` gives it.
pub add64-exact : (a b : ℤ) → Fits a → Fits b → Fits (a +ℤ b) → add64 a b ≡ a +ℤ b
unfolding add64
add64-exact (pos a) (pos b) ha hb h = ground arith
add64-exact (pos a) (negsuc b) ha hb h = ground arith
add64-exact (negsuc a) (pos b) ha hb h = ground arith
add64-exact (negsuc a) (negsuc b) ha hb h = ground arith
