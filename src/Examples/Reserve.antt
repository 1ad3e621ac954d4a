-- ===== src/Examples/Reserve.antt =====
-- The reservations of internal/billing at a concrete ledger.
use mini_enclava_go.Common.{
  ℕ, ◌+◌, ◌≡◌, ◌≢◌, refl, ap, arith, ◌>>=◌, Bool, String, false, not, List, [], ◌∷◌, ◌++◌, none,
  some, ok, err, select_where, any_where, map, ◌&&◌, find_where, update_where,
}
use mini_enclava_go.Common.Int64.{ℤ, pos}
use mini_enclava_go.Billing.Types.{
  Result, Subject, Units, PriceSnapshot, SnapshotRate, Usage, reservation_state,
}
use mini_enclava_go.Billing.Wide.{rounding_ceil}
use mini_enclava_go.Billing.Charge.{unit_map, add_kind, add_others, charge, put}
use mini_enclava_go.Billing.Charge.{rate_of}
use mini_enclava_go.Billing.Wide.Rounding.{cost}
use mini_enclava_go.Billing.Charge.Exact.{charge-exact_sum, exact_sum}
use mini_enclava_go.Billing.Ledger.{
  Clock, State, held, settled, Reservation, UsageRecord, Ledger, get_reservation, transition,
  reserved_liability, settled_liability, is_liability, is_usage_of, may_move, stamp_dispatched,
  insert_usage_record, liabilities, moved_to,
}
use mini_enclava_go.Billing.Ledger.Canonical.{Moves}
use mini_enclava_go.Billing.Reserve.{
  settle, settle_by, settle_held, usage_of, mark_unknown, mark_dispatched, release_undispatched,
}
use mini_enclava_go.Billing.Reserve.Calls.{
  Call, marks_unknown, marks_dispatched, releases, run, run-Moves,
}
use mini_enclava_go.Billing.Reserve.Settled.{
  settle-liabilities, dispatched-stays, mark_unknown-liabilities,
}
use mini_enclava_go.Billing.Reserve.Repeat.{settle-once}

abbrev payer : Subject
payer = record { kind = "tenant"; id = "t1" }

abbrev input_rate : SnapshotRate
input_rate = record { unit = "input"; rate_micros = pos 3; unit_quantity = pos 1000 }

abbrev snapshot : PriceSnapshot
snapshot = record { rates = input_rate ∷ []; currency = "EUR"; rounding_rule = rounding_ceil }

abbrev row : Reservation
row = record {
  tenant_id = "t1";
  id = record { reservation = "res_1"; attribution = none };
  subject = payer;
  state = held;
  price = snapshot;
  limit_amount_micros = pos 6;
  currency = "EUR";
  units = ("input", pos 2000) ∷ [];
  capability = "chat";
  model = "m";
  endpoint_id = "e1";
  job_id = "";
  attempt_id = "";
  dispatched_at = none;
  created_at = 10;
  settled_at = none;
}

abbrev key_row : Reservation
key_row = record row {
  id = record {
    reservation = "res_1";
    attribution = some (record { kind = "api_key"; id = "k1" });
  };
  subject = record { kind = "api_key"; id = "k1" };
}

abbrev ledger : Ledger
ledger = record { budgets = []; prices = []; reservations = row ∷ key_row ∷ []; usage = [] }

abbrev calls : List Call
calls =
    marks_dispatched "t1" "res_1" 11 ∷ releases "t1" "res_1" 12 ∷ marks_unknown "t1" "res_1" 13 ∷ []

abbrev earlier : String → String → Bool
earlier s t = false

run-Moves_example :
    (s : Reservation) × (get_reservation "t1" "res_1" (run earlier (λ now. 0) calls ledger) ≡ ok s)
    × Moves row s
unfolding get_reservation find_where
run-Moves_example = run-Moves earlier (λ now. 0) "t1" "res_1" calls ledger row refl

abbrev used : Usage
used = record {
  input_units = pos 1500;
  output_units = pos 0;
  cached_input_units = pos 0;
  other_units = [];
}

abbrev at : ℕ → Clock
at t = record { service = t; database = t + 1 }

abbrev evidence : UsageRecord
evidence = usage_of "t1" "res_1" "use_1" 20 (("input", pos 1500) ∷ []) (pos 5) row

-- The table has the time of the database.
abbrev recorded : UsageRecord
recorded = record evidence { created_at = 21 }

abbrev settled_ledger : Ledger
settled_ledger = record ledger {
  reservations = moved_to settled 21 row ∷ moved_to settled 21 key_row ∷ [];
  usage = recorded ∷ [];
}

abbrev used_units : Units
used_units = ("input", pos 1500) ∷ []

charged : charge used_units snapshot ≡ ok (pos 5)
unfolding exact_sum cost rate_of
charged = charge-exact_sum used_units snapshot (omega arith) (omega arith)

settled_now : settle "t1" "res_1" used "use_1" (at 20) ledger ≡ ok (evidence, settled_ledger)
unfolding settle settle_by settle_held unit_map get_reservation transition insert_usage_record
    add_kind add_others put find_where any_where update_where
settled_now =
    ap
      (λ (c : Result ℤ). c >>= λ amount.
        insert_usage_record 21 (record evidence { amount_micros = amount })
          (transition "t1" "res_1" settled 21 ledger).1
        >>= λ l'. ok (record evidence { amount_micros = amount }, l'))
      charged

-- The release is refused, and the mark leaves the settled rows.
settle-once_example :
    (t : ℕ) × (settle "t1" "res_1" used "use_2"
        (at 30)
        (run earlier (λ now. 0) calls settled_ledger)
      ≡ ok (record evidence { created_at = t }, run earlier (λ now. 0) calls settled_ledger))
unfolding unit_map add_kind add_others put
settle-once_example =
    settle-once earlier (λ now. 0) "t1" "res_1" used "use_1" (at 20) ledger evidence settled_ledger
      calls used used_units "use_2" (at 30) settled_now refl

mark_unknown-liabilities_example :
    liabilities "t1" payer 5 (transition "t1" "res_1" State.unknown 20 ledger).1
    ≡ liabilities "t1" payer 5 ledger
unfolding mark_unknown transition any_where
mark_unknown-liabilities_example =
    mark_unknown-liabilities "t1" "res_1" 20 ledger
      (transition "t1" "res_1" State.unknown 20 ledger).1 "t1" payer 5 refl

dispatched-stays_example :
    let after = run earlier (λ now. 0) calls (stamp_dispatched "t1" "res_1" 11 ledger) in
    (s : Reservation) × (get_reservation "t1" "res_1" after ≡ ok s)
    × (s.state ≢ State.released)
    × (release_undispatched "t1" "res_1" 40 after ≡ err reservation_state)
unfolding mark_dispatched get_reservation find_where
dispatched-stays_example =
    dispatched-stays earlier (λ now. 0) "t1" "res_1" 11 40 ledger
      (stamp_dispatched "t1" "res_1" 11 ledger) row calls refl (λ e. cc e) refl

abbrev key : Subject
key = record { kind = "api_key"; id = "k1" }

settle-liabilities_example :
    liabilities "t1" key 5 settled_ledger
    ≡ map reserved_liability (
        select_where
          (λ s. is_liability "t1" key s && not (may_move "t1" "res_1" s))
          ledger.reservations)
      ++ map settled_liability (select_where (is_usage_of "t1" key 5) (recorded ∷ []))
unfolding get_reservation find_where
settle-liabilities_example =
    settle-liabilities "t1" "res_1" used "use_1" (at 20) ledger row evidence settled_ledger "t1" key
      5 refl refl settled_now

-- The key's own budgets counted the reservation, and count nothing once it is settled.
key_held : liabilities "t1" key 5 ledger ≡ reserved_liability key_row ∷ []
unfolding liabilities select_where
key_held = refl

key_settled : liabilities "t1" key 5 settled_ledger ≡ []
unfolding liabilities select_where
key_settled = refl
