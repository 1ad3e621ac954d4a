-- ===== src/Billing/Reserve.antt =====
-- `Reserve`, `Settle`, `MarkUnknown`, `MarkDispatched` and `ReleaseUndispatched` of
-- internal/billing/service.go. Each runs in one transaction: an error leaves the ledger as it was.
-- The times of the service and of the database, new random ids, the start of a month (package time)
-- and the database's order of texts are arguments.
pub mod Calls
pub mod Settled
pub mod Repeat
pub mod Found
pub mod Fits
use Prim.Native.String.{compare}
use Prim.Native.Nat.{Ordering}
use mini_enclava_go.Common.{
  ℕ, ◌+◌, ◌-◌, ◌*◌, ◌/◌, ◌%◌, Bool, true, false, not, ◌&&◌, ◌||◌, String, str_eq, List, [], ◌∷◌,
  ◌++◌, map, Option, none, some, ltb, ok, err, ◌>>=◌, ◌>>◌, require, if◌then◌else◌, any_where,
}
use mini_enclava_go.Common.Int64.{ℤ, pos}
use mini_enclava_go.Billing.Types.{
  Error, Result, reservation_not_found, reservation_state, invalid, Units, Subject, PriceSnapshot,
  Usage,
}
use mini_enclava_go.Billing.Admit.{Budget, admit}
use mini_enclava_go.Billing.Charge.{unit_map, snapshot_for, charge}
use mini_enclava_go.Billing.Ledger.{
  Clock, State, held, settled, unknown, released, RowId, Reservation, UsageRecord, Ledger,
  lock_active_budgets, select_prices, liabilities, insert_reservations, get_reservation, transition,
  stamp_dispatched, insert_usage_record, get_usage_record, is_among, same_subject, is_absent,
  is_held, order_by,
}

-- `billingSubjectFor`, of the principal's billing subject.
abbrev pub billing_subject_for : String → Subject → Subject
billing_subject_for tenant s =
    if not (str_eq s.kind "") && not (str_eq s.id "")
    then s
    else record { kind = "tenant"; id = tenant }

-- The subject that the loop of `subjectsFor` looks at: the tenant's id is the caller's own.
abbrev pub normal_subject : String → Subject → Subject
normal_subject tenant s = if str_eq s.kind "tenant" then record s { id = tenant } else s

-- The loop of `subjectsFor`.
unfoldable pub collect_subjects : String → List Subject → List Subject → List Subject
collect_subjects tenant [] out = out
collect_subjects tenant (s ∷ subjects) out =
    let t = normal_subject tenant s in
    collect_subjects tenant subjects
      (if str_eq s.kind "" || (str_eq t.id "" || is_among t out) then out else out ++ t ∷ [])

abbrev pub text_less : String → String → Bool
text_less s t = elim (compare s t) [ Ordering.lt ↦ true | _ ↦ false ]

abbrev pub subject_before : Subject → Subject → Bool
subject_before s t =
    if not (str_eq s.kind t.kind) then text_less s.kind t.kind else text_less s.id t.id

unfoldable pub subjects_for : String → Subject → List Subject → List Subject
subjects_for tenant billing keys =
    order_by subject_before
      (collect_subjects tenant (billing ∷ record { kind = "tenant"; id = tenant } ∷ keys) [])

-- A day in nanoseconds.
abbrev pub day : ℕ
day = 86400000000000

-- `periodStart` of an instant counted from 1970-01-01, a Thursday; zero is Go's zero time.
abbrev pub period_start : (ℕ → ℕ) → String → ℕ → ℕ
period_start month_start period now =
    if str_eq period "daily"
    then now / day * day
    else if str_eq period "weekly"
    then (now / day - (now / day + 3) % 7) * day
    else if str_eq period "monthly"
    then month_start now
    else 0

abbrev pub liability_from : (ℕ → ℕ) → Budget → ℕ → ℕ
liability_from month_start b now =
    let start = period_start month_start b.period now in
    if ltb start b.starts_at then b.starts_at else start

pub record ReserveRequest : Type 0 where
  pub capability : String
  pub price_type : String
  pub price_id : String
  pub estimate : Usage
  pub billing_subject : Subject
  pub subject_keys : List Subject
  pub model : String
  pub endpoint_id : String
  pub job_id : String
  pub attempt_id : String

-- The principal's tenant and billing subject.
pub record Payer : Type 0 where
  pub tenant_id : String
  pub billing_subject : Subject

abbrev pub charged_subject : Payer → ReserveRequest → Subject
charged_subject p req =
    if str_eq req.billing_subject.kind ""
    then billing_subject_for p.tenant_id p.billing_subject
    else req.billing_subject

-- The loop over the budgets.
unfoldable pub admit_all :
    (ℕ → ℕ) → String → ℕ → Ledger → ℤ → Units → String → List Budget → Result (Unit {0})
admit_all month_start tenant now l bound estimate currency [] = ok tt
admit_all month_start tenant now l bound estimate currency (b ∷ budgets) =
    admit b (liabilities tenant b.subject (liability_from month_start b now) l) bound estimate
      currency
    >> admit_all month_start tenant now l bound estimate currency budgets

abbrev pub is_empty : Units → Bool
is_empty [] = true
is_empty (x ∷ units) = false

abbrev pub no_subject : Subject
no_subject = record { kind = ""; id = "" }

-- The literal `out`, its subject still empty.
abbrev pub reservation_of :
    Payer → ReserveRequest → String → ℕ → Units → PriceSnapshot → ℤ → Reservation
reservation_of p req id now estimate snapshot bound = record {
  tenant_id = p.tenant_id;
  id = record { reservation = id; attribution = none };
  subject = no_subject;
  state = held;
  price = snapshot;
  limit_amount_micros = bound;
  currency = snapshot.currency;
  units = estimate;
  capability = req.capability;
  model = req.model;
  endpoint_id = req.endpoint_id;
  job_id = req.job_id;
  attempt_id = req.attempt_id;
  dispatched_at = none;
  created_at = now;
  settled_at = none;
}

-- The row of one subject: the charged subject's has the reservation's own id.
abbrev pub row_for : Subject → Reservation → Subject → Reservation
row_for billing out subject = record out {
  subject = subject;
  id = record {
    reservation = out.id.reservation;
    attribution = if same_subject subject billing then none else some subject;
  };
}

module _ (text_before : String → String → Bool) (month_start : ℕ → ℕ) where
  unfoldable pub reserve :
      Payer → ReserveRequest → String → Clock → Ledger → Result (Reservation × Ledger)
  reserve p req id now l = do
    require (not (str_eq req.capability "" || (str_eq req.price_type "" || str_eq req.price_id "")))
        invalid
    estimate ← unit_map req.estimate
    require (not (is_empty estimate)) invalid
    let billing = charged_subject p req
    let subjects = subjects_for p.tenant_id billing req.subject_keys
    snapshot ←
        snapshot_for
          (select_prices text_before p.tenant_id req.price_type req.price_id req.capability
            now.service l)
          estimate
    bound ← charge estimate snapshot
    admit_all month_start p.tenant_id now.service l bound estimate snapshot.currency
        (lock_active_budgets text_before p.tenant_id subjects now.service l)
    let out = reservation_of p req id now.service estimate snapshot bound
    rows ← insert_reservations now.database (map (row_for billing out) subjects) l.reservations
    ok (record out { subject = billing }, record l { reservations = rows })

-- The evidence that `Settle` writes.
abbrev pub usage_of : String → String → String → ℕ → Units → ℤ → Reservation → UsageRecord
usage_of tenant reservation id now units amount res = record {
  tenant_id = tenant;
  id = id;
  reservation_id = reservation;
  subject = res.subject;
  capability = res.capability;
  model = res.model;
  endpoint_id = res.endpoint_id;
  units = units;
  amount_micros = amount;
  currency = res.currency;
  price = res.price;
  outcome = "completed";
  created_at = now;
}

-- The end of `Settle`, for a held reservation.
unfoldable pub settle_held :
    String → String → String → Clock → Units → Reservation → Ledger → Result (UsageRecord × Ledger)
settle_held tenant reservation id now units res l = do
  amount ← charge units res.price
  let step = transition tenant reservation settled now.database l
  require step.0 reservation_not_found
  l' ←
      insert_usage_record now.database (usage_of tenant reservation id now.service units amount res)
        step.1
  ok (usage_of tenant reservation id now.service units amount res, l')

-- `Settle` by the state of the row.
unfoldable pub settle_by :
    State
    → String
    → String
    → String
    → Clock
    → Units
    → Reservation
    → Ledger
    → Result (UsageRecord × Ledger)
settle_by State.settled tenant reservation id now units res l =
    get_usage_record tenant reservation l >>= λ u. ok (u, l)
settle_by State.held tenant reservation id now units res l =
    settle_held tenant reservation id now units res l
settle_by _ tenant reservation id now units res l = err reservation_state

unfoldable pub settle :
    String → String → Usage → String → Clock → Ledger → Result (UsageRecord × Ledger)
settle tenant reservation actual id now l = do
  units ← unit_map actual
  res ← get_reservation tenant reservation l
  settle_by res.state tenant reservation id now units res l

-- `transition` of the service, from held to unknown.
unfoldable pub mark_unknown : String → String → ℕ → Ledger → Result Ledger
mark_unknown tenant reservation now l =
    let (moved, l') = transition tenant reservation unknown now l in
    if moved then ok l' else (get_reservation tenant reservation l >>= λ res. err reservation_state)

unfoldable pub mark_dispatched : String → String → ℕ → Ledger → Result Ledger
mark_dispatched tenant reservation now l = do
  _ ← get_reservation tenant reservation l
  ok (stamp_dispatched tenant reservation now l)

abbrev pub is_released : State → Bool
is_released State.released = true
is_released _ = false

unfoldable pub release_by : Reservation → String → String → ℕ → Ledger → Result Ledger
release_by res tenant reservation now l =
    if is_released res.state
    then ok l
    else if not (is_held res.state) || not (is_absent res.dispatched_at)
    then err reservation_state
    else ok (transition tenant reservation released now l).1

unfoldable pub release_undispatched : String → String → ℕ → Ledger → Result Ledger
release_undispatched tenant reservation now l = do
  res ← get_reservation tenant reservation l
  release_by res tenant reservation now l
