-- ===== src/Examples/Execute.antt =====
-- An attempt of the executor at a concrete request and ledger.
use mini_enclava_go.Common.{
  ◌≡◌, refl, ap, arith, Bool, true, false, String, [], ◌∷◌, none, some, ok, err, ◌>>=◌, find_where,
  any_where, select_where,
}
use mini_enclava_go.Common.Int64.{ℤ, pos}
use mini_enclava_go.Billing.Types as Billing
use mini_enclava_go.Billing.Types.{Subject, Units, PriceSnapshot, SnapshotRate, Price, Usage}
use mini_enclava_go.Billing.Wide.{rounding_ceil}
use mini_enclava_go.Billing.Wide.Rounding.{cost}
use mini_enclava_go.Billing.Charge.{
  unit_map, add_kind, add_others, put, charge, rate_of, snapshot_for, snapshot_loop, price_of,
}
use mini_enclava_go.Billing.Charge.Exact.{charge-exact_sum, exact_sum}
use mini_enclava_go.Billing.Admit.{admit}
use mini_enclava_go.Billing.Admit.Limit.{admit-amount_iff, amount_liability}
use mini_enclava_go.Billing.Charge.Exact.{magnitude}
use mini_enclava_go.Billing.Reserve.Fits.{reserve-amount-Fits}
use mini_enclava_go.Common.Int64.{◌≤ℤ◌}
use mini_enclava_go.Common.{◌+◌, ◌∙◌, ◌>>◌, any_where, select_where}
use mini_enclava_go.Billing.Ledger.{
  Clock, BudgetRow, liabilities, lock_active_budgets, order_by, insert_by, distinct_units,
}
use mini_enclava_go.Billing.Ledger.{
  State, Reservation, PriceRow, Ledger, get_reservation, insert_reservations, lock_active_budgets,
  select_prices, order_by, insert_by, distinct_units,
}
use mini_enclava_go.Billing.Reserve.{
  ReserveRequest, Payer, reserve, reservation_of, row_for, subjects_for, collect_subjects,
  admit_all,
}
use mini_enclava_go.Billing.Reserve.Found.{reserve-held}
use mini_enclava_go.Source.Types as Source
use mini_enclava_go.Source.Authorizer.{no_restriction, merge_all, contains}
use mini_enclava_go.Inference.Payload.{
  walk_payload, check_field, check_discriminator, check_type, find_field,
}
use mini_enclava_go.Inference.Inputs.{
  Actor, Inputs, SourceStore, ObjectAuthorizer, resolve_inputs, for_each,
}
use mini_enclava_go.Inference.Routing.Strings.{cut_prefix, cut}
use mini_enclava_go.Inference.Routing.Target.{validate_responses_target}
use mini_enclava_go.Inference.Routing.{
  Allowlists, Endpoint, Request, EndpointStore, analyze_payload, check_previous, evaluate,
  upstream_model_for, bound_model, assurance_satisfied, route,
}
use mini_enclava_go.Inference.Routing.Authorized.{Eligible}
use mini_enclava_go.Inference.Execute.Estimate.{
  check_estimate, with_cached, bound_for, others_within,
}
use mini_enclava_go.Inference.Execute.{
  Reply, answered, Work, Executed, reserve_request, reserve_priced, or_model, attempt, execute,
}
use mini_enclava_go.Inference.Execute.Settles.{Resolves, IsLeft, no_faults}
use mini_enclava_go.Inference.Execute.Resolves.{execute-Resolves}

abbrev tenant : Subject
tenant = record { kind = "tenant"; id = "t1" }

abbrev payer : Payer
payer = record { tenant_id = "t1"; billing_subject = tenant }

abbrev used : Usage
used = record {
  input_units = pos 1500;
  output_units = pos 0;
  cached_input_units = pos 0;
  other_units = [];
}

abbrev priced : String → PriceRow
priced kind = record {
  tenant_id = "t1";
  subject_type = "endpoint";
  subject_id = "e1";
  capability = "chat/completions";
  effective_from = 0;
  price = record { unit = kind; rate_micros = pos 3; unit_quantity = pos 1000; currency = "EUR" };
}

abbrev ledger : Ledger
ledger = record {
  budgets = [];
  prices = priced "input" ∷ priced "cached_input" ∷ [];
  reservations = [];
  usage = [];
}

abbrev earlier : String → String → Bool
earlier s t = false

abbrev inputs : Inputs
inputs = record { inputs = []; artifacts = []; conversations = []; restriction = none }

abbrev request : Request
request = record {
  capability = "chat/completions";
  model = "m";
  endpoint_id = "e1";
  payload = [];
  method = "";
  path = "";
  inputs = inputs;
}

abbrev work : Work
work = record { request = request; stream = false; estimate = used; job_id = ""; attempt_id = "" }

abbrev wanted : ReserveRequest
wanted =
    reserve_request "t1" work (with_cached used) "endpoint" "e1" "chat/completions" "e1" "upstream"

abbrev units : Units
units = ("cached_input", pos 1500) ∷ ("input", pos 1500) ∷ []

abbrev rate : String → SnapshotRate
rate kind = record { unit = kind; rate_micros = pos 3; unit_quantity = pos 1000 }

abbrev snapshot : PriceSnapshot
snapshot = record {
  rates = rate "cached_input" ∷ rate "input" ∷ [];
  currency = "EUR";
  rounding_rule = rounding_ceil;
}

charged : charge units snapshot ≡ ok (pos 10)
unfolding exact_sum cost rate_of
charged = charge-exact_sum units snapshot (omega arith) (omega arith)

abbrev clock : Clock
clock = record { service = 10; database = 11 }

abbrev made : Reservation
made = record (reservation_of payer wanted "res_1" 10 units snapshot (pos 10)) { subject = tenant }

-- The table has the time of the database.
abbrev stored : Reservation
stored = record made { created_at = 11 }

abbrev held_ledger : Ledger
held_ledger = record ledger { reservations = stored ∷ [] }

reserved_now : reserve earlier (λ now. 0) payer wanted "res_1" clock ledger ≡ ok (made, held_ledger)
unfolding reserve unit_map add_kind add_others put snapshot_for snapshot_loop price_of select_prices
    order_by insert_by distinct_units select_where lock_active_budgets admit_all subjects_for
    collect_subjects any_where insert_reservations
reserved_now =
    ap
      (λ (c : Billing.Result ℤ). c >>= λ bound.
        insert_reservations 11
          (row_for tenant (reservation_of payer wanted "res_1" 10 units snapshot bound) tenant ∷ [])
          []
        >>= λ rows. ok (
          record (reservation_of payer wanted "res_1" 10 units snapshot bound) { subject = tenant },
          record ledger { reservations = rows },
        ))
      charged

reserve-held_example :
    (get_reservation "t1" "res_1" held_ledger ≡ ok (record made { created_at = 11 }))
    × (made.state ≡ State.held)
    × (made.dispatched_at ≡ none)
reserve-held_example =
    reserve-held earlier (λ now. 0) payer wanted "res_1" clock ledger made held_ledger
      (refl, refl, refl) reserved_now

abbrev actor : Actor
actor = record {
  tenant_id = "t1";
  principal = record { actor_id = "a1"; user_id = ""; delegated_by_actor_id = "" };
}

abbrev store : SourceStore
store = record {
  get_object = λ tenant id. err Source.denied;
  get_object_version = λ tenant id seq. err Source.denied;
  latest_object_version = λ tenant id. err Source.denied;
  restrictions_for_subject = λ tenant kind id. ok [];
}

abbrev authorizer : ObjectAuthorizer
authorizer = record {
  can_read = λ p obj opts. err Source.denied;
  effective_restrictions = λ obj ver artifact. err Source.denied;
}

abbrev dest : Endpoint
dest = record {
  id = "e1";
  tenant_id = "t1";
  protocol = "openai";
  capabilities = "chat/completions" ∷ "model:m=upstream" ∷ [];
  assurance_verified_at = none;
  enabled = true;
}

abbrev lists : Allowlists
lists = record { all_endpoints = true; endpoints = []; all_models = true; models = [] }

abbrev endpoints : EndpointStore
endpoints = record { get = λ tenant id. ok dest; list_capabilities = λ tenant capability. ok [] }

abbrev same : String → String
same s = s

abbrev reply : Reply
reply = answered true (some used)

abbrev executed : Executed
executed = record {
  endpoint = dest;
  capability = "chat/completions";
  decision = record {
    capability = "chat/completions";
    upstream_model = "upstream";
    effective = no_restriction;
  };
  reservation = made;
  ledger = attempt "t1" "res_1" false no_faults "use_1" clock (some reply) held_ledger;
}

executed_now :
    execute store authorizer none none
      (λ s t. false)
      same
      same
      (λ n. true)
      (λ payload. none)
      (pos 100)
      endpoints
      earlier
      (λ now. 0)
      actor
      lists
      tenant
      work
      (some reply)
      no_faults
      "res_1"
      "use_1"
      clock
      ledger
    ≡ ok executed
unfolding execute bound_for analyze_payload evaluate walk_payload check_field check_discriminator
    check_type find_field check_previous validate_responses_target upstream_model_for bound_model
    cut_prefix cut assurance_satisfied resolve_inputs for_each merge_all contains check_estimate
    others_within route find_where reserve_priced
executed_now =
    ap
      (λ (r : Billing.Result (Reservation × Ledger)).
        or_model r (
          reserve earlier (λ now. 0) payer
            (reserve_request "t1" work (with_cached used) "model" "upstream" "chat/completions" "e1"
              "upstream")
            "res_1" clock ledger)
        >>= λ pair. ok (record executed {
          reservation = pair.0;
          ledger = attempt "t1" "res_1" false no_faults "use_1" clock (some reply) pair.1;
        }))
      reserved_now

execute-Resolves_example :
    Eligible store authorizer none none
      (λ s t. false)
      actor
      lists
      request
      dest
      "chat/completions"
      executed.decision
    × (check_estimate "chat/completions" (with_cached used) ≡ ok tt)
    × IsLeft "t1" "res_1" executed.ledger
        (Resolves "t1" "res_1" snapshot [] executed.ledger false (some reply))
execute-Resolves_example =
    execute-Resolves store authorizer none none (λ s t. false) same same (λ n. true)
      (λ payload. none) (pos 100) endpoints earlier (λ now. 0) actor lists tenant work (some reply)
      "res_1" "use_1" clock ledger executed (refl, refl, refl) executed_now

abbrev monthly : BudgetRow
monthly = record {
  tenant_id = "t1";
  active = true;
  budget = record {
    id = "b1";
    subject = tenant;
    kind = "amount";
    period = "monthly";
    limit_amount_micros = pos 10;
    currency = "EUR";
    starts_at = 0;
    ends_at = none;
  };
}

abbrev bounded : Ledger
bounded = record ledger { budgets = monthly ∷ [] }

admitted : admit monthly.budget [] (pos 10) units "EUR" ≡ ok tt
unfolding amount_liability
admitted =
    (admit-amount_iff monthly.budget [] (pos 10) units "EUR" refl (omega arith) tt (omega arith)).1
      (refl, omega arith)

reserved_within :
    reserve earlier (λ now. 0) payer wanted "res_1" clock bounded
    ≡ ok (made, record bounded { reservations = stored ∷ [] })
unfolding reserve unit_map add_kind add_others put snapshot_for snapshot_loop price_of select_prices
    order_by insert_by distinct_units select_where lock_active_budgets admit_all subjects_for
    collect_subjects any_where insert_reservations liabilities
reserved_within =
    ap
      (λ (c : Billing.Result ℤ). c >>= λ bound.
        ((admit monthly.budget [] bound units "EUR" >> ok tt)
          >> (insert_reservations 11
                (row_for tenant (reservation_of payer wanted "res_1" 10 units snapshot bound) tenant
                  ∷ [])
                []
              >>= λ rows. ok (
                record (reservation_of payer wanted "res_1" 10 units snapshot bound) {
                  subject = tenant;
                },
                record bounded { reservations = rows },
              ))))
      charged
    ∙ ap
        (λ (a : Billing.Result (Unit {0})).
          (a >> ok tt) >> ok (made, record bounded { reservations = stored ∷ [] }))
        admitted

reserve-amount-Fits_example :
    (made.currency ≡ "EUR")
    × (pos (
          amount_liability "EUR" (liabilities "t1" tenant 0 bounded)
          + magnitude made.limit_amount_micros)
        ≤ℤ pos 10)
unfolding subjects_for collect_subjects order_by insert_by any_where liabilities select_where
reserve-amount-Fits_example =
    reserve-amount-Fits (λ now. 0) earlier payer wanted "res_1" clock bounded made
      (record bounded { reservations = stored ∷ [] }) monthly [] [] reserved_within refl refl refl
      (omega arith) tt (omega arith)
