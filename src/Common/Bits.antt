-- ===== src/Common/Bits.antt =====
-- Machine words are numbers with the wrap written out. What `&` with one and `|` of disjoint
-- fields do, at every width: the native operations have no laws at variables but their digits.
use Prim.Native.Nat.{
  ℕ, zero, suc, ◌+◌, ◌*◌, ◌/◌, ◌%◌, ◌^◌, ◌≤◌, ◌<◌, min, max, digits, bit_and, bit_or,
  bit_and-bitwise, bit_or-bitwise,
}
use mathlib.Core.Path.{◌≡◌, refl, ap}
use native.Mathlib.Nat.{pow-suc}
use native.Mathlib.Omega.{arith}

-- The digits do not depend on the fuel once it covers the first number.
module _ (done : ℕ → ℕ) (op : ℕ → ℕ → ℕ) where
  digits-fuel : (n m a b : ℕ) → a ≤ n → a ≤ m → digits done op n a b ≡ digits done op m a b
  digits-fuel zero zero a b h k = refl
  digits-fuel zero (suc m) zero b h k = refl
  digits-fuel zero (suc m) (suc a) b h k = absurd (omega arith)
  digits-fuel (suc n) zero zero b h k = refl
  digits-fuel (suc n) zero (suc a) b h k = absurd (omega arith)
  digits-fuel (suc n) (suc m) zero b h k = refl
  digits-fuel (suc n) (suc m) (suc a) b h k =
      rw (digits-fuel n m (suc a / 2) (b / 2) (omega arith) (omega arith))

abbrev keep : ℕ → ℕ
keep y = y

abbrev none_left : ℕ → ℕ
none_left y = 0

bit_or-digit : (a b : ℕ) → bit_or a b ≡ bit_or (a / 2) (b / 2) * 2 + max (a % 2) (b % 2)
bit_or-digit zero b = omega (arith, bit_or-bitwise 0 b, bit_or-bitwise 0 (b / 2))
bit_or-digit (suc a) b = omega (
  arith,
  bit_or-bitwise (suc a) b,
  bit_or-bitwise (suc a / 2) (b / 2),
  digits-fuel keep max a (suc a / 2) (suc a / 2) (b / 2) (omega arith) (omega arith),
)

bit_and-digit : (a b : ℕ) → bit_and a b ≡ bit_and (a / 2) (b / 2) * 2 + min (a % 2) (b % 2)
bit_and-digit zero b = omega (arith, bit_and-bitwise 0 b, bit_and-bitwise 0 (b / 2))
bit_and-digit (suc a) b = omega (
  arith,
  bit_and-bitwise (suc a) b,
  bit_and-bitwise (suc a / 2) (b / 2),
  digits-fuel none_left min a (suc a / 2) (suc a / 2) (b / 2) (omega arith) (omega arith),
)

bit_and-zero_below : (n a : ℕ) → a ≤ n → bit_and a 0 ≡ 0
bit_and-zero_below n zero h = refl
bit_and-zero_below zero (suc a) h = absurd (omega arith)
bit_and-zero_below (suc n) (suc a) h =
    omega (arith, bit_and-digit (suc a) 0, bit_and-zero_below n (suc a / 2) (omega arith))

bit_or-zero_below : (n a : ℕ) → a ≤ n → bit_or a 0 ≡ a
bit_or-zero_below n zero h = refl
bit_or-zero_below zero (suc a) h = absurd (omega arith)
bit_or-zero_below (suc n) (suc a) h =
    omega (arith, bit_or-digit (suc a) 0, bit_or-zero_below n (suc a / 2) (omega arith))

-- `a & 1` is the lowest bit.
pub bit_and-one : (a : ℕ) → bit_and a 1 ≡ a % 2
bit_and-one a = omega (arith, bit_and-digit a 1, bit_and-zero_below (a / 2) (a / 2) (omega arith))

double-pow : (q k : ℕ) → q * 2 ^ suc k ≡ 2 * (q * 2 ^ k)
double-pow q k = omega (arith, ap (λ (t : ℕ). q * t) (pow-suc 2 k))

-- `|` adds where the second number fits below the lowest bit of the first.
pub bit_or-add : (k q r : ℕ) → r < 2 ^ k → bit_or (q * 2 ^ k) r ≡ q * 2 ^ k + r
bit_or-add zero q r h = ground (arith, bit_or-zero_below q q (omega arith))
bit_or-add (suc k) q r h =
    ground
      (arith, bit_or-digit (q * 2 ^ suc k) r, double-pow q k, pow-suc 2 k, bit_or-add k q (r / 2))
