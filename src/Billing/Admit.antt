-- ===== src/Billing/Admit.antt =====
-- `checkedAdd` and `admit` of internal/billing/service.go: one budget against the liability that
-- exists and the bound that is proposed.
pub mod Limit
use mini_enclava_go.Common.{
  ℕ, ◌+◌, ◌%◌, Bool, true, false, not, ◌&&◌, ◌||◌, String, str_eq, List, [], ◌∷◌, Option, none,
  some, if◌then◌else◌,
}
use mini_enclava_go.Common.Int64.{ℤ, pos, word, is_negative, ltb_ℤ, to_word, of_word, add64}
use mini_enclava_go.Billing.Types.{
  Result, budget_exceeded, currency_mismatch, invalid, Units, Subject, LiabilityRow,
}
use mini_enclava_go.Common.{ok, err, ◌>>=◌}

-- `ends_at` is `none` for a budget without an end.
pub record Budget : Type 0 where
  pub id : String
  pub subject : Subject
  pub kind : String
  pub period : String
  pub limit_amount_micros : ℤ
  pub currency : String
  pub starts_at : ℕ
  pub ends_at : Option ℕ

-- The sum of the patterns, and whether its sign shows that the sum of the values is no int64.
pub checked_add : ℤ → ℤ → ℤ × Bool
checked_add a b =
    let sum = of_word ((to_word a + to_word b) % word) in
    (
      sum,
      (not (is_negative a) && not (is_negative b) && is_negative sum)
          || (is_negative a && is_negative b && not (is_negative sum)),
    )

-- `existing, overflow = checkedAdd(existing, v)` and the return on overflow.
add_or_refuse : ℤ → ℤ → Result ℤ
add_or_refuse a b =
    let (sum, overflow) = checked_add a b in if overflow then err budget_exceeded else ok sum

-- The loop over the rows of the budget's currency.
amount_loop : String → List LiabilityRow → ℤ → Result ℤ
amount_loop currency [] existing = ok existing
amount_loop currency (r ∷ rows) existing =
    let counted = add_or_refuse existing r.amount_micros >>= λ sum. amount_loop currency rows sum in
    let skipped = amount_loop currency rows existing in
    if str_eq r.currency currency then counted else skipped

-- The loop over one map of units. Its order is the map's; counts give the same result in any.
units_loop : Units → ℤ → Result ℤ
units_loop [] existing = ok existing
units_loop ((k, v) ∷ units) existing = add_or_refuse existing v >>= λ sum. units_loop units sum

token_loop : List LiabilityRow → ℤ → Result ℤ
token_loop [] existing = ok existing
token_loop (r ∷ rows) existing = units_loop r.units existing >>= λ sum. token_loop rows sum

-- The two checks at the end of either case: the sum must not overflow, nor pass the limit.
fit : ℤ → ℤ → ℤ → Result (Unit {0})
fit limit existing proposed =
    if (checked_add existing proposed).1
    then err budget_exceeded
    else if ltb_ℤ limit (add64 existing proposed)
    then err budget_exceeded
    else ok tt

pub admit : Budget → List LiabilityRow → ℤ → Units → String → Result (Unit {0})
admit b rows bound units currency =
    if str_eq b.kind "amount"
    then (if not (str_eq currency b.currency)
        then err currency_mismatch
        else (amount_loop b.currency rows (pos 0) >>= λ existing.
            fit b.limit_amount_micros existing bound))
    else if str_eq b.kind "tokens"
    then (do
      existing ← token_loop rows (pos 0)
      proposed ← units_loop units (pos 0)
      fit b.limit_amount_micros existing proposed)
    else err invalid
