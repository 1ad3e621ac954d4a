-- ===== src/Billing/Admit/Limit.antt =====
-- A budget admits a reservation exactly when the exact sum of liability and bound fits the limit.
use mini_enclava_go.Common.{
  ℕ, ◌+◌, ◌<◌, ◌≡◌, ◌↔◌, inl, inr, true, false, String, str_eq, List, [], ◌∷◌, leb, if◌then◌else◌,
  arith, Bool-cases, eq_iff, add_assoc, zero-add,
}
use mini_enclava_go.Common.Int64.{ℤ, pos, negsuc, max_int64, half_word, ◌+ℤ◌, ◌≤ℤ◌, Fits, add64}
use mini_enclava_go.Billing.Types.{Result, budget_exceeded, Units, LiabilityRow}
use mini_enclava_go.Common.{ok, err, ◌>>=◌}
use mini_enclava_go.Billing.Charge.Exact.{IsCount, AreCounts, magnitude}
use mini_enclava_go.Billing.Admit.{
  Budget, checked_add, add_or_refuse, amount_loop, units_loop, token_loop, fit, admit,
}

-- `checkedAdd` reports an overflow exactly when the sum of the values is no int64, and otherwise
-- returns that sum.
pub checked_add-exact :
    (a b : ℤ)
    → Fits a
    → Fits b
    → (Fits (a +ℤ b) → checked_add a b ≡ (a +ℤ b, false))
      × (¬ Fits (a +ℤ b) → (checked_add a b).1 ≡ true)
unfolding checked_add
checked_add-exact (pos a) (pos b) ha hb = (λ h. ground arith, λ h. ground arith)
checked_add-exact (pos a) (negsuc b) ha hb = (λ h. ground arith, λ h. ground arith)
checked_add-exact (negsuc a) (pos b) ha hb = (λ h. ground arith, λ h. ground arith)
checked_add-exact (negsuc a) (negsuc b) ha hb = (λ h. ground arith, λ h. ground arith)

-- A sum of counts that is an int64, or the refusal.
within : ℕ → Result ℤ
within n = if leb n max_int64 then ok (pos n) else err budget_exceeded

add_or_refuse-within :
    (a b : ℕ) → a < half_word → b < half_word → add_or_refuse (pos a) (pos b) ≡ within (a + b)
unfolding add_or_refuse within checked_add
add_or_refuse-within a b ha hb = ground arith

unfoldable pub sum_units : Units → ℕ
sum_units [] = 0
sum_units ((k, v) ∷ units) = magnitude v + sum_units units

-- A loop that goes on from an int64 sum, and stops at the first that is none.
within-then :
    (n m k : ℕ) (f : ℤ → Result ℤ)
    → n + m ≡ k
    → (n < half_word → f (pos n) ≡ within (n + m))
    → (within n >>= f) ≡ within k
within-then n m k f e go = rw (← e) (elim (Bool-cases (leb n max_int64)) [
  | inl fits ↦ unfold within in rw fits (go (ground arith))
  | inr over ↦ unfold within in ground arith
])

within-start : (n : ℕ) → n < half_word → ok (pos n) ≡ within (n + 0)
unfolding within
within-start n h = ground arith

units_loop-within :
    (units : Units) (n : ℕ)
    → n < half_word
    → AreCounts units
    → units_loop units (pos n) ≡ within (n + sum_units units)
unfolding units_loop sum_units
units_loop-within [] n h counts = within-start n h
units_loop-within ((k, pos v) ∷ units) n h counts = rw (add_or_refuse-within n v h counts.0) (
    within-then (n + v) (sum_units units) _ _ (add_assoc n v _)
      (λ h'. units_loop-within units (n + v) h' counts.1))
units_loop-within ((k, negsuc v) ∷ units) n h counts = absurd counts.0

-- The liability of the rows that count for a budget over an amount, and over tokens.
unfoldable pub amount_liability : String → List LiabilityRow → ℕ
amount_liability currency [] = 0
amount_liability currency (r ∷ rows) =
    (if str_eq r.currency currency then magnitude r.amount_micros else 0)
    + amount_liability currency rows

unfoldable pub token_liability : List LiabilityRow → ℕ
token_liability [] = 0
token_liability (r ∷ rows) = sum_units r.units + token_liability rows

-- Rows that hold counts, as the database's checks and `Reserve` make them.
abbrev pub AreLiabilities : List LiabilityRow → Type 0
AreLiabilities [] = Unit {0}
AreLiabilities (r ∷ rows) = IsCount r.amount_micros × AreCounts r.units × AreLiabilities rows

add_count :
    (n : ℕ) (v : ℤ) → n < half_word → IsCount v → add_or_refuse (pos n) v ≡ within (n + magnitude v)
add_count n (pos v) h c = add_or_refuse-within n v h c
add_count n (negsuc v) h c = absurd c

amount_loop-within :
    (currency : String) (rows : List LiabilityRow) (n : ℕ)
    → n < half_word
    → AreLiabilities rows
    → amount_loop currency rows (pos n) ≡ within (n + amount_liability currency rows)
unfolding amount_loop amount_liability
amount_loop-within currency [] n h rows = within-start n h
amount_loop-within currency (r ∷ rows) n h l = elim (Bool-cases (str_eq r.currency currency)) [
  | inl same ↦
      rw (same, add_count n r.amount_micros h l.0)
        (within-then (n + magnitude r.amount_micros) (amount_liability currency rows) _ _
          (add_assoc n _ _) (λ h'. amount_loop-within currency rows _ h' l.2))
  | inr other ↦ rw (other, zero-add) (amount_loop-within currency rows n h l.2)
]

token_loop-within :
    (rows : List LiabilityRow) (n : ℕ)
    → n < half_word
    → AreLiabilities rows
    → token_loop rows (pos n) ≡ within (n + token_liability rows)
unfolding token_loop token_liability
token_loop-within [] n h l = within-start n h
token_loop-within (r ∷ rows) n h l = rw (units_loop-within r.units n h l.1) (
    within-then (n + sum_units r.units) (token_liability rows) _ _ (add_assoc n _ _)
      (λ h'. token_loop-within rows _ h' l.2))

-- The end of `admit`, after sums that are int64 or refused.
fit_iff :
    (limit : ℤ) (n m : ℕ)
    → Fits limit
    → ((within n >>= λ e. within m >>= λ p. fit limit e p) ≡ ok tt) ↔ (pos (n + m) ≤ℤ limit)
unfolding fit within checked_add add64
fit_iff limit n m h = (λ e. ground arith, λ k. ground arith)

-- An amount budget admits a reservation exactly when both are in one currency, and the liability in
-- that currency and the proposed bound together do not pass the limit.
pub admit-amount_iff :
    (b : Budget) (rows : List LiabilityRow) (bound : ℤ) (units : Units) (currency : String)
    → b.kind ≡ "amount"
    → Fits b.limit_amount_micros
    → AreLiabilities rows
    → IsCount bound
    → (admit b rows bound units currency ≡ ok tt) ↔ (
        (currency ≡ b.currency)
        × (pos (amount_liability b.currency rows + magnitude bound) ≤ℤ b.limit_amount_micros))
unfolding admit
admit-amount_iff b rows (pos m) units currency kind fits l c =
    rw (kind, amount_loop-within b.currency rows 0 (omega arith) l, zero-add)
      (let alone : within m ≡ ok (pos m) = unfold within in ground arith in
        let (to, from) =
          rw alone at (fit_iff b.limit_amount_micros (amount_liability b.currency rows) m fits) in
        elim (Bool-cases (str_eq currency b.currency)) [
          | inl same ↦ rw same (λ e. ((eq_iff currency b.currency).0 same, to e), λ h. from h.1)
          | inr other ↦ rw other (λ e. cc, λ h. cc ((eq_iff currency b.currency).1 h.0))
        ])
admit-amount_iff b rows (negsuc m) units currency kind fits l c = absurd c

-- A token budget admits a reservation exactly when the reserved and settled units of all rows and
-- the proposed units together do not pass the limit.
pub admit-tokens_iff :
    (b : Budget) (rows : List LiabilityRow) (bound : ℤ) (units : Units) (currency : String)
    → b.kind ≡ "tokens"
    → Fits b.limit_amount_micros
    → AreLiabilities rows
    → AreCounts units
    → (admit b rows bound units currency ≡ ok tt)
      ↔ (pos (token_liability rows + sum_units units) ≤ℤ b.limit_amount_micros)
unfolding admit
admit-tokens_iff b rows bound units currency kind fits l c =
    rw
      (
        kind,
        token_loop-within rows 0 (omega arith) l,
        units_loop-within units 0 (omega arith) c,
        zero-add (token_liability rows),
        zero-add (sum_units units),
      )
      (fit_iff b.limit_amount_micros (token_liability rows) (sum_units units) fits)
