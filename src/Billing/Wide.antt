-- ===== src/Billing/Wide.antt =====
-- The 128-bit accumulator of internal/billing/service.go: `div128`, `big128.addRatMul`, `i64`.
-- A uint64 is a number with its wrap written out; `bits.Add64` and `bits.Mul64` are the documented
-- sum with carry and full product.
pub mod Division
pub mod Rounding
use Prim.Native.Nat.{bit_and, bit_or}
use mini_enclava_go.Common.{
  ℕ, zero, suc, ◌+◌, ◌-◌, ◌*◌, ◌/◌, ◌%◌, ◌^◌, Bool, true, false, ◌&&◌, ◌||◌, not, String, str_eq,
  ltb, leb, ◌==◌, if◌then◌else◌,
}
use mini_enclava_go.Common.Int64.{ℤ, pos, word, max_int64, to_word, of_word}

pub record U128 : Type 0 where
  pub hi : ℕ
  pub lo : ℕ

-- The loop variables of `div128`.
pub record DivState : Type 0 where
  pub quo_hi : ℕ
  pub quo_lo : ℕ
  pub rem : ℕ

-- The body of the loop at index i.
div_step : ℕ → ℕ → ℕ → ℕ → DivState → DivState
div_step hi lo q i s =
    let shifted = s.rem * 2 % word in
    let bit = if leb 64 i then bit_and (hi / 2 ^ (i - 64)) 1 else bit_and (lo / 2 ^ i) 1 in
    let rem = bit_or shifted bit in
    if leb q rem
    then (if leb 64 i
        then record { quo_hi = bit_or s.quo_hi (2 ^ (i - 64)); quo_lo = s.quo_lo; rem = rem - q }
        else record { quo_hi = s.quo_hi; quo_lo = bit_or s.quo_lo (2 ^ i); rem = rem - q })
    else record s { rem = rem }

-- `for i := n - 1; i >= 0; i--`.
div_loop : ℕ → ℕ → ℕ → ℕ → DivState → DivState
div_loop zero hi lo q s = s
div_loop (suc i) hi lo q s = div_loop i hi lo q (div_step hi lo q i s)

pub div128 : ℕ → ℕ → ℕ → U128 × ℕ
div128 hi lo q =
    let s = div_loop 128 hi lo q (record { quo_hi = 0; quo_lo = 0; rem = 0 }) in
    (record { hi = s.quo_hi; lo = s.quo_lo }, s.rem)

pub record Big128 : Type 0 where
  pub hi : ℕ
  pub lo : ℕ
  pub overflow : Bool

abbrev pub zero_total : Big128
zero_total = record { hi = 0; lo = 0; overflow = false }

-- `bits.Add64(x, y, carry)`: the wrapped sum and the carry out.
add_carry : ℕ → ℕ → ℕ → ℕ × ℕ
add_carry x y carry = ((x + y + carry) % word, (x + y + carry) / word)

-- `bits.Mul64(x, y)`: the upper and the lower word of the product.
mul_wide : ℕ → ℕ → ℕ × ℕ
mul_wide x y = (x * y / word, x * y % word)

abbrev pub rounding_ceil : String
rounding_ceil = "ceil"

-- The quotient, one more where the rule rounds up and something is left.
round_up : String → U128 × ℕ → U128
unfolding add_carry
round_up rule (quo, rem) =
    if str_eq rule rounding_ceil && ltb 0 rem
    then (let (lo, carry) = add_carry quo.lo 1 0 in
        record { hi = (quo.hi + carry) % word; lo = lo })
    else quo

accumulate : Big128 → U128 → Big128
unfolding add_carry
accumulate t quo =
    let (lo, carry) = add_carry t.lo quo.lo 0 in
    let (hi, hi_carry) = add_carry t.hi quo.hi carry in
    record {
      hi = hi;
      lo = lo;
      overflow = t.overflow || not (hi_carry == 0) || not (hi == 0) || ltb max_int64 lo;
    }

pub add_rat_mul : Big128 → ℤ → ℤ → ℤ → String → Big128
add_rat_mul t a b q rule =
    if (to_word b == 0) || (to_word a == 0)
    then t
    else (let (hi, lo) = mul_wide (to_word a) (to_word b) in
        accumulate t (round_up rule (div128 hi lo (to_word q))))

pub i64 : Big128 → ℤ
i64 t = if not (t.hi == 0) || ltb max_int64 t.lo then pos max_int64 else of_word t.lo
