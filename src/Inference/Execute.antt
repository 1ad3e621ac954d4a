-- ===== src/Inference/Execute.antt =====
-- `Execute`, `reserve`, `failAttempt` and `releaseUndispatched` of internal/inference/service.go, and
-- `settleReservation` of usage.go, over the calls of internal/billing. What the endpoint answers, its
-- usage as `usageFromJSON` reads it, and what fails are arguments. An attempt that is streamed goes on
-- until its body is closed. The permit of the admission gate is returned on every path and does not show.
pub mod Estimate
pub mod Settles
pub mod Resolves
use mini_enclava_go.Common.{
  ℕ, Bool, true, false, not, ◌&&◌, ◌||◌, String, str_eq, List, [], ◌∷◌, Option, none, some, ok, err,
  ◌>>=◌, ◌>>◌, require, if◌then◌else◌,
}
use mini_enclava_go.Common.Int64.{ℤ, pos}
use mini_enclava_go.Billing.Types as Billing
use mini_enclava_go.Billing.Types.{Subject, Usage, price_missing, invalid}
use mini_enclava_go.Billing.Ledger.{Clock, Ledger, Reservation, UsageRecord}
use mini_enclava_go.Billing.Reserve.{
  ReserveRequest, Payer, no_subject, reserve, settle, mark_unknown, mark_dispatched,
  release_undispatched,
}
use mini_enclava_go.Billing.Reserve.Calls.{after_ledger}
use mini_enclava_go.Inference.Payload.{
  Error, denied, unsupported_capability, not_admitted, billing, Result, Fields,
}
use mini_enclava_go.Inference.Inputs.{
  Actor, SourceStore, ObjectAuthorizer, ArtifactStore, ConversationStore,
}
use mini_enclava_go.Inference.Routing.{
  Allowlists, Endpoint, Request, Decision, EndpointStore, analyze_payload, effective_capability,
  route, evaluate,
}
use mini_enclava_go.Inference.Execute.Estimate.{
  bound_for, or_unsupported, check_estimate, with_cached,
}

-- What came of a dispatch: an error that says nothing of the outcome; an error of the provider, with the
-- usage that its body reports; an answer with its usage, whose body, if it is streamed, was closed at the
-- terminal event or before.
pub data Reply : Type 0 where
  failed : Reply
  refused : Option Usage → Reply
  answered : (terminal : Bool) → Option Usage → Reply

-- What fails: the encoding of the body, the admission to the gate, and the calls whose transaction does.
pub record Faults : Type 0 where
  pub encode : Bool
  pub acquire : Bool
  pub mark_dispatched : Bool
  pub settle : Bool
  pub mark_unknown : Bool
  pub release : Bool

abbrev pub no_usage : Usage
no_usage = record {
  input_units = pos 0;
  output_units = pos 0;
  cached_input_units = pos 0;
  other_units = [];
}

abbrev pub or_no_usage : Option Usage → Usage
or_no_usage none = no_usage
or_no_usage (some u) = u

-- The request of `Execute` that `reserve` and `Execute` read besides the one that is authorized.
pub record Work : Type 0 where
  pub request : Request
  pub stream : Bool
  pub estimate : Usage
  pub job_id : String
  pub attempt_id : String

-- `failAttempt`.
abbrev pub fail_attempt : String → String → Faults → ℕ → Ledger → Ledger
fail_attempt tenant id f now l =
    if f.mark_unknown then l else after_ledger l (mark_unknown tenant id now l)

-- `releaseUndispatched`.
abbrev pub release_attempt : String → String → Faults → ℕ → Ledger → Ledger
release_attempt tenant id f now l =
    if f.release then l else after_ledger l (release_undispatched tenant id now l)

-- `settleReservation`.
unfoldable pub settle_reservation :
    String → String → Faults → String → Clock → Option Usage → Ledger → Ledger
settle_reservation tenant id f new now none l = fail_attempt tenant id f now.database l
settle_reservation tenant id f new now (some usage) l =
    elim (if f.settle then err invalid else settle tenant id usage new now l) [
      | ok (record_made, l') ↦ l'
      | err e ↦ fail_attempt tenant id f now.database l
    ]

-- After the dispatch. Any error of a streamed request fails the attempt.
unfoldable pub after_reply :
    String → String → Bool → Faults → String → Clock → Reply → Ledger → Ledger
after_reply tenant id stream f new now failed l = fail_attempt tenant id f now.database l
after_reply tenant id stream f new now (refused usage) l =
    if stream
    then fail_attempt tenant id f now.database l
    else settle_reservation tenant id f new now (some (or_no_usage usage)) l
after_reply tenant id stream f new now (answered terminal usage) l =
    settle_reservation tenant id f new now (if stream && not terminal then none else usage) l

-- From the reservation on: no reply stands for a transport that cannot be made.
unfoldable pub attempt :
    String → String → Bool → Faults → String → Clock → Option Reply → Ledger → Ledger
attempt tenant id stream f new now none l = release_attempt tenant id f now.database l
attempt tenant id stream f new now (some reply) l =
    elim (if f.mark_dispatched then err invalid else mark_dispatched tenant id now.database l) [
      | ok l' ↦ after_reply tenant id stream f new now reply l'
      | err e ↦ l
    ]

abbrev pub reserve_request :
    String → Work → Usage → String → String → String → String → String → ReserveRequest
reserve_request tenant work estimate price_type price_id capability endpoint model = record {
  capability = capability;
  price_type = price_type;
  price_id = price_id;
  estimate = estimate;
  billing_subject = no_subject;
  subject_keys = record { kind = "tenant"; id = tenant } ∷ [];
  model = model;
  endpoint_id = endpoint;
  job_id = work.job_id;
  attempt_id = work.attempt_id;
}

abbrev pub is_price_missing : Billing.Error → Bool
is_price_missing Billing.Error.price_missing = true
is_price_missing _ = false

abbrev pub or_billing : {A : Type 0} → Billing.Result A → Result A
or_billing (ok a) = ok a
or_billing (err e) = err billing

-- The second reservation is tried where the first one misses a price.
abbrev pub or_model : {A : Type 0} → Billing.Result A → Billing.Result A → Result A
or_model (ok a) second = ok a
or_model (err e) second = if is_price_missing e then or_billing second else err billing

module _ (text_before : String → String → Bool) (month_start : ℕ → ℕ) where
  -- `reserve`: the endpoint's prices, then the model's where it has none.
  unfoldable pub reserve_priced :
      Payer
      → Work
      → Usage
      → String
      → String
      → String
      → String
      → Clock
      → Ledger
      → Result (Reservation × Ledger)
  reserve_priced p work estimate capability endpoint model id now l =
      or_model
        (reserve text_before month_start p
          (reserve_request p.tenant_id work estimate "endpoint" endpoint capability endpoint model)
          id now l)
        (reserve text_before month_start p
          (reserve_request p.tenant_id work estimate "model" model capability endpoint model) id now
          l)

-- An attempt that was made, whatever is returned of its outcome.
pub record Executed : Type 0 where
  pub endpoint : Endpoint
  pub capability : String
  pub decision : Decision
  pub reservation : Reservation
  pub ledger : Ledger

module _ (store : SourceStore) (authorizer : ObjectAuthorizer) (artifacts : Option ArtifactStore)
    (conversations : Option ConversationStore) (equal_fold : String → String → Bool)
    (to_lower to_upper : String → String) (in_range : String → Bool)
    (decode : List ℕ → Option Fields) (payload_limit : ℤ) (endpoints : EndpointStore)
    (text_before : String → String → Bool) (month_start : ℕ → ℕ) where
  unfoldable pub execute :
      Actor
      → Allowlists
      → Subject
      → Work
      → Option Reply
      → Faults
      → String
      → String
      → Clock
      → Ledger
      → Result Executed
  execute p a subject work reply f id new now l = do
    let req = work.request
    require (not (str_eq p.tenant_id "" || str_eq p.principal.actor_id "")) denied
    or_unsupported (bound_for req.capability)
    needs_vision ← analyze_payload to_lower to_upper in_range decode payload_limit req
    let capability = effective_capability req.capability needs_vision
    require (not (work.stream && str_eq capability "embeddings")) unsupported_capability
    check_estimate capability (with_cached work.estimate)
    endpoint ← route endpoints p.tenant_id a req capability
    decision ←
        evaluate store authorizer artifacts conversations equal_fold p a req endpoint capability
    require (not f.encode) denied
    require (not f.acquire) not_admitted
    made ←
        reserve_priced text_before month_start
          (record { tenant_id = p.tenant_id; billing_subject = subject }) work
          (with_cached work.estimate) capability endpoint.id decision.upstream_model id now l
    ok (record {
      endpoint = endpoint;
      capability = capability;
      decision = decision;
      reservation = made.0;
      ledger = attempt p.tenant_id id work.stream f new now reply made.1;
    })
