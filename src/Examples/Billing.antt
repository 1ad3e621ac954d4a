-- ===== src/Examples/Billing.antt =====
-- internal/billing at concrete inputs.
use mini_enclava_go.Common.{
  ◌+◌, ◌*◌, ◌≤◌, ◌<◌, ◌≡◌, refl, ◌≢◌, ◌↔◌, true, false, [], ◌∷◌, none, arith,
}
use mini_enclava_go.Common.Int64.{pos, ◌≤ℤ◌, ◌+ℤ◌, max_int64, word, Fits}
use mini_enclava_go.Billing.Types.{Price, SnapshotRate, PriceSnapshot, Units, LiabilityRow}
use mini_enclava_go.Common.{ok}
use mini_enclava_go.Billing.Wide.{div128, rounding_ceil}
use mini_enclava_go.Billing.Wide.Division.{div128_exact}
use mini_enclava_go.Billing.Wide.Rounding.{cost}
use mini_enclava_go.Billing.Charge.{charge, snapshot_for, snapshot_loop, price_of, rate_of}
use mini_enclava_go.Billing.Charge.Exact.{
  charge-exact_sum, charge-total_cost, exact_sum, total_cost,
}
use mini_enclava_go.Billing.Charge.Snapshot.{Prices, snapshot_for-Prices}
use mini_enclava_go.Billing.Admit.{Budget, admit, checked_add}
use mini_enclava_go.Billing.Admit.Limit.{
  admit-amount_iff, admit-tokens_iff, checked_add-exact, amount_liability, token_liability,
  sum_units,
}

div128_exact_example :
    let r = div128 1 5 7 in
    (18446744073709551621 ≡ (r.0.hi * word + r.0.lo) * 7 + r.1)
    × (r.1 < 7)
    × (r.0.hi ≤ 1)
    × (r.0.lo < word)
div128_exact_example = div128_exact 1 5 7 (omega arith) (omega arith) (omega arith) (omega arith)

abbrev input_rate : SnapshotRate
input_rate = record { unit = "input"; rate_micros = pos 3; unit_quantity = pos 1000 }

abbrev output_rate : SnapshotRate
output_rate = record { unit = "output"; rate_micros = pos 15; unit_quantity = pos 1000 }

abbrev snapshot : PriceSnapshot
snapshot = record {
  rates = input_rate ∷ output_rate ∷ [];
  currency = "EUR";
  rounding_rule = rounding_ceil;
}

abbrev estimate : Units
estimate = ("input", pos 1500) ∷ ("output", pos 700) ∷ []

charge-exact_sum_example : charge estimate snapshot ≡ exact_sum snapshot estimate 0
charge-exact_sum_example = charge-exact_sum estimate snapshot (omega arith) (omega arith)

charged : charge estimate snapshot ≡ ok (pos 16)
unfolding exact_sum cost rate_of
charged = charge-exact_sum estimate snapshot (omega arith) (omega arith)

charge-total_cost_example :
    (pos 16 ≡ pos (total_cost snapshot estimate)) × (total_cost snapshot estimate ≤ max_int64)
charge-total_cost_example = charge-total_cost estimate snapshot (omega arith) (omega arith) charged

abbrev price : Price
price = record { unit = "input"; rate_micros = pos 3; unit_quantity = pos 1000; currency = "EUR" }

abbrev one_rate : PriceSnapshot
one_rate = record { rates = input_rate ∷ []; currency = "EUR"; rounding_rule = rounding_ceil }

snapshot_for-Prices_example :
    Prices (price ∷ []) "EUR" (("input", pos 1500) ∷ []) (input_rate ∷ [])
    × (one_rate.currency ≢ "")
    × (one_rate.rounding_rule ≡ rounding_ceil)
unfolding snapshot_for snapshot_loop price_of
snapshot_for-Prices_example =
    snapshot_for-Prices (price ∷ []) (("input", pos 1500) ∷ []) {snap = one_rate} refl

abbrev budget : Budget
budget = record {
  id = "b1";
  subject = record { kind = "tenant"; id = "t1" };
  kind = "amount";
  period = "monthly";
  limit_amount_micros = pos 100;
  currency = "EUR";
  starts_at = 0;
  ends_at = none;
}

abbrev liability : LiabilityRow
liability = record { amount_micros = pos 80; currency = "EUR"; units = estimate }

admit-amount_iff_example :
    (admit budget (liability ∷ []) (pos 20) estimate "EUR" ≡ ok tt)
    ↔ (("EUR" ≡ budget.currency) × (pos (amount_liability "EUR" (liability ∷ []) + 20) ≤ℤ pos 100))
admit-amount_iff_example =
    admit-amount_iff budget (liability ∷ []) (pos 20) estimate "EUR" refl (omega arith)
      (omega arith) (omega arith)

abbrev token_budget : Budget
token_budget = record budget { kind = "tokens"; limit_amount_micros = pos 5000 }

admit-tokens_iff_example :
    (admit token_budget (liability ∷ []) (pos 20) estimate "EUR" ≡ ok tt)
    ↔ (pos (token_liability (liability ∷ []) + sum_units estimate) ≤ℤ pos 5000)
admit-tokens_iff_example =
    admit-tokens_iff token_budget (liability ∷ []) (pos 20) estimate "EUR" refl (omega arith)
      (omega arith) (omega arith)

checked_add-exact_example :
    (Fits (pos max_int64 +ℤ pos 1)
      → checked_add (pos max_int64) (pos 1) ≡ (pos max_int64 +ℤ pos 1, false))
    × (¬ Fits (pos max_int64 +ℤ pos 1) → (checked_add (pos max_int64) (pos 1)).1 ≡ true)
checked_add-exact_example = checked_add-exact (pos max_int64) (pos 1) (omega arith) (omega arith)
