-- ===== src/Billing/Ledger.antt =====
-- The tables of internal/store/postgres/billing_repo.go and the statements of its transaction. The id
-- of a reservation row is the id of its reservation and, in an attribution row, the suffix with the
-- subject; generated ids are one prefix, `_` and hexadecimal digits, so the test
-- `id = $2 OR id LIKE $2 || '/%'` compares the first part.
-- `now()` and the database's order of texts are arguments.
pub mod Canonical
use mini_enclava_go.Common.{
  ℕ, Bool, true, false, not, ◌&&◌, ◌||◌, String, str_eq, List, [], ◌∷◌, ◌++◌, map, Option, none,
  some, ltb, leb, ok, err, if◌then◌else◌, update_where, any_where, find_where, select_where,
}
use mini_enclava_go.Common.Int64.{ℤ}
use mini_enclava_go.Billing.Types.{
  Error, Result, reservation_not_found, invalid, Units, Subject, Price, PriceSnapshot, LiabilityRow,
}
use mini_enclava_go.Billing.Admit.{Budget}

pub data State : Type 0 where
  held settled unknown released : State

pub record RowId : Type 0 where
  pub reservation : String
  pub attribution : Option Subject

pub record Reservation : Type 0 where
  pub tenant_id : String
  pub id : RowId
  pub subject : Subject
  pub state : State
  pub price : PriceSnapshot
  pub limit_amount_micros : ℤ
  pub currency : String
  pub units : Units
  pub capability : String
  pub model : String
  pub endpoint_id : String
  pub job_id : String
  pub attempt_id : String
  pub dispatched_at : Option ℕ
  pub created_at : ℕ
  pub settled_at : Option ℕ

pub record UsageRecord : Type 0 where
  pub tenant_id : String
  pub id : String
  pub reservation_id : String
  pub subject : Subject
  pub capability : String
  pub model : String
  pub endpoint_id : String
  pub units : Units
  pub amount_micros : ℤ
  pub currency : String
  pub price : PriceSnapshot
  pub outcome : String
  pub created_at : ℕ

pub record BudgetRow : Type 0 where
  pub tenant_id : String
  pub active : Bool
  pub budget : Budget

pub record PriceRow : Type 0 where
  pub tenant_id : String
  pub subject_type : String
  pub subject_id : String
  pub capability : String
  pub effective_from : ℕ
  pub price : Price

-- The time of the service, `s.now()`, and the one of the database, `now()`.
pub record Clock : Type 0 where
  pub service : ℕ
  pub database : ℕ

pub record Ledger : Type 0 where
  pub budgets : List BudgetRow
  pub prices : List PriceRow
  pub reservations : List Reservation
  pub usage : List UsageRecord

abbrev pub same_subject : Subject → Subject → Bool
same_subject s t = str_eq s.kind t.kind && str_eq s.id t.id

abbrev pub is_among : Subject → List Subject → Bool
is_among s subjects = any_where (λ t. same_subject t s) subjects

abbrev pub is_absent {ℓ} : {A : Type ℓ} → Option A → Bool
is_absent none = true
is_absent (some a) = false

-- `ends_at IS NULL OR ends_at > $2`.
abbrev pub is_open_at : ℕ → Option ℕ → Bool
is_open_at now none = true
is_open_at now (some end) = ltb now end

-- The `WHERE` of `budgetSelectSQL` and of the two queries that add the subjects.
abbrev pub is_applicable : String → List Subject → ℕ → BudgetRow → Bool
is_applicable tenant subjects now b =
    str_eq b.tenant_id tenant
    && (b.active
        && (leb b.budget.starts_at now
            && (is_open_at now b.budget.ends_at && is_among b.budget.subject subjects)))

-- `ORDER BY`, by a test that says which of two rows comes first.
unfoldable pub insert_by {ℓ} : {A : Type ℓ} → (A → A → Bool) → A → List A → List A
insert_by before x [] = x ∷ []
insert_by before x (y ∷ ys) = if before x y then x ∷ y ∷ ys else y ∷ insert_by before x ys

unfoldable pub order_by {ℓ} : {A : Type ℓ} → (A → A → Bool) → List A → List A
order_by before [] = []
order_by before (x ∷ xs) = insert_by before x (order_by before xs)

module _ (text_before : String → String → Bool) where
  abbrev pub budget_before : Budget → Budget → Bool
  budget_before a b =
      if not (str_eq a.subject.kind b.subject.kind)
      then text_before a.subject.kind b.subject.kind
      else if not (str_eq a.subject.id b.subject.id)
      then text_before a.subject.id b.subject.id
      else text_before a.id b.id

  unfoldable pub lock_active_budgets : String → List Subject → ℕ → Ledger → List Budget
  lock_active_budgets tenant subjects now l =
      order_by budget_before
        (map (λ b. b.budget) (select_where (is_applicable tenant subjects now) l.budgets))

  -- `ORDER BY unit_kind, effective_from DESC`.
  abbrev pub price_before : PriceRow → PriceRow → Bool
  price_before p q =
      if str_eq p.price.unit q.price.unit
      then leb q.effective_from p.effective_from
      else text_before p.price.unit q.price.unit

  -- `DISTINCT ON (unit_kind)`: of rows in order, the first of each kind.
  unfoldable pub distinct_units : List Price → List Price
  distinct_units [] = []
  distinct_units (p ∷ ps) = p ∷ select_where (λ q. not (str_eq q.unit p.unit)) (distinct_units ps)

  unfoldable pub select_prices : String → String → String → String → ℕ → Ledger → List Price
  select_prices tenant subject_type subject_id capability now l = distinct_units (
      map (λ p. p.price)
        (order_by price_before (
          select_where
            (λ p.
              str_eq p.tenant_id tenant
              && (str_eq p.subject_type subject_type
                  && (str_eq p.subject_id subject_id
                      && (str_eq p.capability capability && leb p.effective_from now))))
            l.prices)))

abbrev pub is_held : State → Bool
is_held State.held = true
is_held _ = false

-- `state IN ('held','unknown')`.
abbrev pub is_outstanding : State → Bool
is_outstanding State.held = true
is_outstanding State.unknown = true
is_outstanding _ = false

-- The `CASE` on the scope: canonical rows of the tenant, or rows of the subject.
abbrev pub is_in_scope : Subject → Reservation → Bool
is_in_scope scope r =
    if str_eq scope.kind "tenant" then is_absent r.id.attribution else same_subject r.subject scope

abbrev pub is_liability : String → Subject → Reservation → Bool
is_liability tenant scope r =
    str_eq r.tenant_id tenant && (is_outstanding r.state && is_in_scope scope r)

-- The second query, in the tenant's form and in the subject's.
abbrev pub is_usage_of : String → Subject → ℕ → UsageRecord → Bool
is_usage_of tenant scope from u =
    str_eq u.tenant_id tenant
    && (leb from u.created_at
        && (if str_eq scope.kind "tenant" then true else same_subject u.subject scope))

abbrev pub reserved_liability : Reservation → LiabilityRow
reserved_liability r = record {
  amount_micros = r.limit_amount_micros;
  currency = r.currency;
  units = r.units;
}

abbrev pub settled_liability : UsageRecord → LiabilityRow
settled_liability u = record {
  amount_micros = u.amount_micros;
  currency = u.currency;
  units = u.units;
}

-- `queryLiabilities`.
unfoldable pub liabilities : String → Subject → ℕ → Ledger → List LiabilityRow
liabilities tenant scope from l =
    map reserved_liability (select_where (is_liability tenant scope) l.reservations)
    ++ map settled_liability (select_where (is_usage_of tenant scope from) l.usage)

abbrev pub same_attribution : Option Subject → Option Subject → Bool
same_attribution none none = true
same_attribution (some s) (some t) = same_subject s t
same_attribution _ _ = false

abbrev pub same_id : RowId → RowId → Bool
same_id a b = str_eq a.reservation b.reservation && same_attribution a.attribution b.attribution

abbrev pub is_taken : Reservation → List Reservation → Bool
is_taken r table = any_where (λ s. str_eq s.tenant_id r.tenant_id && same_id s.id r.id) table

-- The primary key (tenant_id, id) refuses a row whose key is there. The statement names no
-- `created_at`, so the table's default applies, the database's time.
unfoldable pub insert_reservations :
    ℕ → List Reservation → List Reservation → Result (List Reservation)
insert_reservations now [] table = ok table
insert_reservations now (r ∷ rows) table =
    let rest =
      insert_reservations now rows
        (table ++ record r { state = State.held; created_at = now } ∷ []) in
    if is_taken r table then err invalid else rest

-- `tenant_id = $1 AND id = $2`, of an id without a suffix.
abbrev pub is_canonical : String → String → Reservation → Bool
is_canonical tenant id r =
    str_eq r.tenant_id tenant && (str_eq r.id.reservation id && is_absent r.id.attribution)

-- `sql.ErrNoRows`.
abbrev pub or_not_found : {A : Type 0} → Option A → Result A
or_not_found none = err reservation_not_found
or_not_found (some a) = ok a

unfoldable pub get_reservation : String → String → Ledger → Result Reservation
get_reservation tenant id l = or_not_found (find_where (is_canonical tenant id) l.reservations)

-- `tenant_id = $1 AND (id = $2 OR id LIKE $2 || '/%')`.
abbrev pub is_row_of : String → String → Reservation → Bool
is_row_of tenant id r = str_eq r.tenant_id tenant && str_eq r.id.reservation id

-- The `WHERE` and the `SET` of `Transition` from `held`, the one state that callers move from.
abbrev pub may_move : String → String → Reservation → Bool
may_move tenant id r = is_row_of tenant id r && is_held r.state

abbrev pub settled_time : State → ℕ → Option ℕ → Option ℕ
settled_time State.settled now old = some now
settled_time _ now old = old

abbrev pub moved_to : State → ℕ → Reservation → Reservation
moved_to to now r = record r { state = to; settled_at = settled_time to now r.settled_at }

-- Whether a row moved, and the ledger.
unfoldable pub transition : String → String → State → ℕ → Ledger → Bool × Ledger
transition tenant id to now l = (
  any_where (may_move tenant id) l.reservations,
  record l { reservations = update_where (may_move tenant id) (moved_to to now) l.reservations },
)

unfoldable pub stamp_dispatched : String → String → ℕ → Ledger → Ledger
stamp_dispatched tenant id now l = record l {
  reservations =
      update_where (λ r. is_row_of tenant id r && is_absent r.dispatched_at)
        (λ r. record r { dispatched_at = some now }) l.reservations;
}

abbrev pub is_usage_for : String → String → UsageRecord → Bool
is_usage_for tenant id u = str_eq u.tenant_id tenant && str_eq u.reservation_id id

-- `UNIQUE (tenant_id, reservation_id)`; `created_at` is the table's default again.
unfoldable pub insert_usage_record : ℕ → UsageRecord → Ledger → Result Ledger
insert_usage_record now u l =
    if any_where (is_usage_for u.tenant_id u.reservation_id) l.usage
    then err invalid
    else ok (record l { usage = l.usage ++ record u { created_at = now } ∷ [] })

unfoldable pub get_usage_record : String → String → Ledger → Result UsageRecord
get_usage_record tenant id l = or_not_found (find_where (is_usage_for tenant id) l.usage)
