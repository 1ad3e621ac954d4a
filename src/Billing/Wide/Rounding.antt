-- ===== src/Billing/Wide/Rounding.antt =====
-- One term of a charge, `big128.addRatMul` of internal/billing/service.go, against exact arithmetic.
use mini_enclava_go.Common.{
  ℕ, ◌+◌, ◌-◌, ◌*◌, ◌/◌, ◌%◌, ◌≤◌, ◌<◌, ◌≡◌, refl, ap, ◌∙◌, inl, inr, true, false, ◌||◌, String,
  str_eq, ltb, ◌==◌, if◌then◌else◌, arith, Bool-cases, ltb→lt,
}
use native.Mathlib.Nat.{mul-le-mul, mul-add-div_right, div-eq_of_lt}
use mini_enclava_go.Common.Int64.{pos, word, max_int64, half_word}
use mini_enclava_go.Billing.Wide.{
  U128, Big128, div128, add_carry, mul_wide, round_up, accumulate, add_rat_mul, i64, rounding_ceil,
}
use mini_enclava_go.Billing.Wide.Division.{div128_exact}

-- a * b / q, rounded up under the rule `ceil` and down under any other.
unfoldable pub cost : String → ℕ → ℕ → ℕ → ℕ
cost rule a b q = if str_eq rule rounding_ceil then (a * b + (q - 1)) / q else a * b / q

-- The number that two words stand for.
abbrev value : U128 → ℕ
value u = u.hi * word + u.lo

-- An accumulator within int64, or marked as over.
abbrev pub Holds : Big128 → ℕ → Type 0
Holds t n = (t.overflow ≡ ltb max_int64 n) × (n ≤ max_int64 → (t.hi ≡ 0) × (t.lo ≡ n))

accumulate-Holds :
    (t : Big128) (quo : U128) (n : ℕ)
    → n ≤ max_int64
    → Holds t n
    → quo.lo < word
    → quo.hi < half_word
    → Holds (accumulate t quo) (n + value quo)
unfolding accumulate add_carry
accumulate-Holds t quo n h hold hl hh = ground (arith, hold.1 h)

div_unique : (x q v r : ℕ) → x ≡ v * q + r → r < q → x / q ≡ v
div_unique x q v r e h =
    ap (λ (t : ℕ). t / q) e
    ∙ mul-add-div_right {m = q} (omega arith) v r
    ∙ omega (arith, div-eq_of_lt {n = r} {m = q} h)

module _ (rule : String) (a b q : ℕ) (ha : a < half_word) (hb : b < half_word) (hq : q < half_word)
    (some_q : 0 < q) where
  product-small : a * b < half_word * half_word
  product-small =
      let bound : a * b ≤ max_int64 * max_int64 =
        mul-le-mul {n₂ = max_int64} {m₂ = max_int64} (omega arith) (omega arith) in
      omega arith

  quotient : U128 × ℕ
  quotient = div128 (a * b / word) (a * b % word) q

  quotient-exact :
      (a * b ≡ value quotient.0 * q + quotient.1)
      × (quotient.1 < q)
      × (quotient.0.hi ≤ 4611686018427387904)
      × (quotient.0.lo < word)
  unfolding quotient
  quotient-exact =
      let e : a * b / word * word + a * b % word ≡ a * b = omega arith in
      let fits : (a * b / word ≤ 4611686018427387904) × (a * b % word < word) =
        omega (arith, product-small) in
      omega (arith, product-small, div128_exact (a * b / word) (a * b % word) q)

  -- The quotient of the product, rounded down and up.
  quotient-floor : a * b / q ≡ value quotient.0
  quotient-floor =
      div_unique (a * b) q (value quotient.0) quotient.1 quotient-exact.0 quotient-exact.1

  quotient-ceil :
      (a * b + (q - 1)) / q ≡ (if ltb 0 quotient.1 then value quotient.0 + 1 else value quotient.0)
  quotient-ceil = elim (Bool-cases (ltb 0 quotient.1)) [
    | inl some_left ↦ rw some_left (
        div_unique _ q (value quotient.0 + 1) (quotient.1 - 1)
          (omega (arith, quotient-exact, ltb→lt 0 quotient.1 some_left))
          (omega (arith, quotient-exact)))
    | inr none_left ↦
        rw none_left
          (div_unique _ q (value quotient.0) (q - 1) (ground (arith, quotient-exact)) (omega arith))
  ]

  rounded :
      (value (round_up rule quotient) ≡ cost rule a b q)
      × ((round_up rule quotient).lo < word)
      × ((round_up rule quotient).hi < half_word)
  unfolding round_up cost add_carry
  rounded = ground (arith, quotient-exact, quotient-floor, quotient-ceil)

cost-free :
    (rule : String) (a b q : ℕ) → 0 < q → ((b == 0) || (a == 0)) ≡ true → cost rule a b q ≡ 0
unfolding cost
cost-free rule a b q h free =
    let none : a * b ≡ 0 = ground arith in
    ground (arith, div-eq_of_lt {n = 0} {m = q} h, div-eq_of_lt {n = q - 1} {m = q} (omega arith))

add_rat_mul-priced :
    (t : Big128) (rule : String) (a b q : ℕ)
    → a < half_word
    → b < half_word
    → q < half_word
    → ((b == 0) || (a == 0)) ≡ false
    → add_rat_mul t (pos a) (pos b) (pos q) rule
      ≡ accumulate t (round_up rule (div128 (a * b / word) (a * b % word) q))
unfolding add_rat_mul mul_wide
add_rat_mul-priced t rule a b q ha hb hq priced =
    let ea : a % word ≡ a = omega arith in
    let eb : b % word ≡ b = omega arith in
    let eq : q % word ≡ q = omega arith in rw (ea, eb, eq, priced) refl

-- While the exact total is an int64, a step adds exactly the term's cost; once it is not, the
-- accumulator is marked and stays so.
pub add_rat_mul-Holds :
    (t : Big128) (rule : String) (a b q n : ℕ)
    → a < half_word
    → b < half_word
    → q < half_word
    → 0 < q
    → n ≤ max_int64
    → Holds t n
    → Holds (add_rat_mul t (pos a) (pos b) (pos q) rule) (n + cost rule a b q)
unfolding add_rat_mul quotient
add_rat_mul-Holds t rule a b q n ha hb hq some_q hn hold =
    elim (Bool-cases ((b == 0) || (a == 0))) [
      | inl free ↦ rw (cost-free rule a b q some_q free) (ground arith)
      | inr priced ↦ rw (add_rat_mul-priced t rule a b q ha hb hq priced) (
          let (e, l, h) = rounded rule a b q ha hb hq some_q in
          rw e at (
            accumulate-Holds t (round_up rule (quotient rule a b q ha hb hq some_q)) n hn hold l h))
    ]

-- `i64` reads the exact total back.
pub i64-Holds : (t : Big128) (n : ℕ) → n ≤ max_int64 → Holds t n → i64 t ≡ pos n
unfolding i64
i64-Holds t n h hold = ground (arith, hold.1 h)
