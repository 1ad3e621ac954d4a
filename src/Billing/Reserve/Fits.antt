-- ===== src/Billing/Reserve/Fits.antt =====
-- `Reserve` of internal/billing/service.go asks every budget that applies.
use mini_enclava_go.Common.{
  ℕ, ◌+◌, ◌≡◌, sym, ap, subst, ◌∙◌, Bool, true, false, String, List, [], ◌∷◌, ◌++◌, map, ok,
  ok_of_then, Bool-cases, inl, inr, if◌then◌else◌, select_where, Each,
}
use mini_enclava_go.Common.Int64.{ℤ, pos, ◌≤ℤ◌, Fits}
use mini_enclava_go.Billing.Types.{Units, LiabilityRow}
use mini_enclava_go.Billing.Admit.{Budget, admit}
use mini_enclava_go.Billing.Admit.Limit.{admit-amount_iff, amount_liability, AreLiabilities}
use mini_enclava_go.Billing.Charge.Exact.{IsCount, magnitude}
use mini_enclava_go.Billing.Ledger.{
  Clock, BudgetRow, Reservation, Ledger, is_applicable, insert_by, order_by, budget_before,
  lock_active_budgets, liabilities,
}
use mini_enclava_go.Billing.Reserve.{
  ReserveRequest, Payer, charged_subject, subjects_for, liability_from, admit_all, reserve,
}
use mini_enclava_go.Billing.Reserve.Calls.{reserve_lem}

sorted_first :
    {A : Type 0} (P : A → Type 0) (before : A → A → Bool) (x y : A) (ys : List A)
    → before x y ≡ true
    → Each P (insert_by before x (y ∷ ys))
    → P x × Each P (y ∷ ys)
unfolding insert_by
sorted_first P before x y ys first each =
    subst (λ t. Each P (if t then x ∷ y ∷ ys else y ∷ insert_by before x ys)) first each

sorted_later :
    {A : Type 0} (P : A → Type 0) (before : A → A → Bool) (x y : A) (ys : List A)
    → before x y ≡ false
    → Each P (insert_by before x (y ∷ ys))
    → P y × Each P (insert_by before x ys)
unfolding insert_by
sorted_later P before x y ys later each =
    subst (λ t. Each P (if t then x ∷ y ∷ ys else y ∷ insert_by before x ys)) later each

rest_of :
    {A B : Type 0} (P : B → Type 0) (view : A → B) (y : A) (ys : List A) (t : Bool)
    → Each P (map view (if t then y ∷ ys else ys))
    → Each P (map view ys)
rest_of P view y ys true (first, rest) = rest
rest_of P view y ys false each = each

Each-insert_by :
    {A : Type 0} (P : A → Type 0) (before : A → A → Bool) (x : A) (xs : List A)
    → Each P (insert_by before x xs)
    → P x × Each P xs
unfolding insert_by
Each-insert_by P before x [] (px, rest) = (px, tt)
Each-insert_by P before x (y ∷ ys) each = elim (Bool-cases (before x y)) [
  | inl first ↦ let (px, rest) = sorted_first P before x y ys first each in (px, rest)
  | inr later ↦
      let (py, rest) = sorted_later P before x y ys later each in
      let (px, others) = Each-insert_by P before x ys rest in (px, (py, others))
]

Each-order_by :
    {A : Type 0} (P : A → Type 0) (before : A → A → Bool) (xs : List A)
    → Each P (order_by before xs)
    → Each P xs
unfolding order_by
Each-order_by P before [] each = tt
Each-order_by P before (x ∷ xs) each =
    let (px, rest) = Each-insert_by P before x (order_by before xs) each in
    (px, Each-order_by P before xs rest)

-- What holds of the view of every selected row, for a row that is selected.
Each-selected :
    {A B : Type 0} (P : B → Type 0) (p : A → Bool) (view : A → B) (before : List A) (x : A)
    (after : List A)
    → p x ≡ true
    → Each P (map view (select_where p (before ++ x ∷ after)))
    → P (view x)
unfolding select_where
Each-selected P p view [] x after h each =
    (subst (λ t. Each P (map view (if t then x ∷ select_where p after else select_where p after))) h
      each).0
Each-selected P p view (y ∷ before) x after h each =
    Each-selected P p view before x after h
      (rest_of P view y (select_where p (before ++ x ∷ after)) (p y) each)

admitted_amount :
    (b : Budget) (rows : List LiabilityRow) (bound : ℤ) (units : Units) (currency : String)
    (bound' : ℤ) (currency' : String)
    → bound' ≡ bound
    → currency' ≡ currency
    → b.kind ≡ "amount"
    → Fits b.limit_amount_micros
    → AreLiabilities rows
    → IsCount bound'
    → admit b rows bound units currency ≡ ok tt
    → (currency' ≡ b.currency)
      × (pos (amount_liability b.currency rows + magnitude bound') ≤ℤ b.limit_amount_micros)
admitted_amount b rows bound units currency bound' currency' same money kind limit counted whole
      admitted =
    let own = subst (λ m. admit b rows m units currency ≡ ok tt) (sym same) admitted in
    let (eq, fits) =
      (admit-amount_iff b rows bound' units currency kind limit counted whole).0 own in
    (money ∙ eq, fits)

module _ (month_start : ℕ → ℕ) where
  admit_all-Each :
      (tenant : String) (now : ℕ) (l : Ledger) (bound : ℤ) (estimate : Units) (currency : String)
      (budgets : List Budget)
      → admit_all month_start tenant now l bound estimate currency budgets ≡ ok tt
      → Each
          (λ b.
            admit b
              (liabilities tenant b.subject (liability_from month_start b now) l)
              bound
              estimate
              currency
            ≡ ok tt)
          budgets
  unfolding admit_all
  admit_all-Each tenant now l bound estimate currency [] h = tt
  admit_all-Each tenant now l bound estimate currency (b ∷ budgets) h =
      let (first, rest) = ok_of_then _ _ h in
      (first, admit_all-Each tenant now l bound estimate currency budgets rest)

  -- Where `Reserve` succeeds no budget that applies is passed over: of the tenant's rows, each that is
  -- active, in its window, and about the charged subject, the tenant or a requested key, if it is an
  -- amount budget of a limit in int64, is in the currency of the reservation, and what counted against
  -- its subject and the bound of the reservation together do not pass its limit. What counted
  -- is counted from the later of the start of the budget's period and its own start. The liabilities
  -- that counted and the bound are whole amounts in int64.
  pub reserve-amount-Fits :
      (text_before : String → String → Bool) (p : Payer) (req : ReserveRequest) (id : String)
      (now : Clock) (l : Ledger) (res : Reservation) (l' : Ledger) (b : BudgetRow)
      (before after : List BudgetRow)
      → reserve text_before month_start p req id now l ≡ ok (res, l')
      → l.budgets ≡ before ++ b ∷ after
      → is_applicable p.tenant_id
          (subjects_for p.tenant_id (charged_subject p req) req.subject_keys)
          now.service
          b
        ≡ true
      → b.budget.kind ≡ "amount"
      → Fits b.budget.limit_amount_micros
      → AreLiabilities (
          liabilities p.tenant_id b.budget.subject
            (liability_from month_start b.budget now.service)
            l)
      → IsCount res.limit_amount_micros
      → (res.currency ≡ b.budget.currency)
        × (pos (
              amount_liability b.budget.currency (
                liabilities p.tenant_id b.budget.subject
                  (liability_from month_start b.budget now.service)
                  l)
              + magnitude res.limit_amount_micros)
            ≤ℤ b.budget.limit_amount_micros)
  unfolding lock_active_budgets
  reserve-amount-Fits text_before p req id now l res l' b before after h rows applies kind limit
        counted whole =
      let d = reserve_lem text_before month_start p req id now l res l' h in
      let subjects = subjects_for p.tenant_id (charged_subject p req) req.subject_keys in
      let asked : Budget → Type 0 = λ c.
        admit c (liabilities p.tenant_id c.subject (liability_from month_start c now.service) l)
          d.bound d.estimate d.snapshot.currency
        ≡ ok tt in
      let all =
        Each-order_by asked (budget_before text_before)
          (map (λ c. c.budget)
            (select_where (is_applicable p.tenant_id subjects now.service) l.budgets))
          (admit_all-Each p.tenant_id now.service l d.bound d.estimate d.snapshot.currency
            (lock_active_budgets text_before p.tenant_id subjects now.service l) d.admitted) in
      let admitted : asked b.budget =
        Each-selected asked (is_applicable p.tenant_id subjects now.service) (λ c. c.budget) before
          b after applies
          (subst
            (λ bs. Each asked (
              map (λ (c : BudgetRow). c.budget)
                (select_where (is_applicable p.tenant_id subjects now.service) bs)))
            rows all) in
      let bound_is : res.limit_amount_micros ≡ d.bound =
        ap (λ (r : Reservation). r.limit_amount_micros) d.returned in
      let currency_is : res.currency ≡ d.snapshot.currency =
        ap (λ (r : Reservation). r.currency) d.returned in
      admitted_amount b.budget
        (liabilities p.tenant_id b.budget.subject (liability_from month_start b.budget now.service)
          l)
        d.bound d.estimate d.snapshot.currency res.limit_amount_micros res.currency bound_is
        currency_is kind limit counted whole admitted
