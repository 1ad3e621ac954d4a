-- ===== src/Inference/Execute/Resolves.antt =====
-- What `Execute` of internal/inference/service.go leaves of the reservation that it makes.
use mini_enclava_go.Common.{
  ℕ, ◌≡◌, refl, ap, subst, ◌⊎◌, inl, inr, Bool, true, false, not, ◌&&◌, ◌||◌, String, str_eq, List,
  Option, none, ok, err, ◌>>◌, require_then, ok_of_bind, ok_of_then, if◌then◌else◌,
}
use mini_enclava_go.Common.Int64.{ℤ}
use mini_enclava_go.Billing.Types.{Subject, Usage, Units, PriceSnapshot}
use mini_enclava_go.Billing.Types as Billing
use mini_enclava_go.Billing.Ledger.{Clock, State, Reservation, Ledger, get_reservation}
use mini_enclava_go.Billing.Reserve.{
  Payer, billing_subject_for, reserve, ReserveRequest, charged_subject,
}
use mini_enclava_go.Billing.Reserve.Calls.{reserve_lem}
use mini_enclava_go.Billing.Reserve.Found.{IsPlain, reserve-held}
use mini_enclava_go.Inference.Payload.{denied, unsupported_capability, billing, Result, Fields}
use mini_enclava_go.Inference.Inputs.{
  Actor, SourceStore, ObjectAuthorizer, ArtifactStore, ConversationStore,
}
use mini_enclava_go.Inference.Routing.{
  Allowlists, EndpointStore, analyze_payload, effective_capability, route, evaluate,
}
use mini_enclava_go.Inference.Routing.Authorized.{Eligible, evaluate-Eligible}
use mini_enclava_go.Inference.Execute.Estimate.{
  bound_for, or_unsupported, check_estimate, with_cached,
}
use mini_enclava_go.Inference.Execute.{
  Reply, Work, attempt, reserve_request, is_price_missing, reserve_priced, or_model, or_billing,
  Executed, execute,
}
use mini_enclava_go.Inference.Execute.Settles.{Resolves, IsLeft, no_faults, attempt-left}

or_billing_ok : {A : Type 0} (r : Billing.Result A) {a : A} → or_billing r ≡ ok a → r ≡ ok a
or_billing_ok (ok b) h = cc h
or_billing_ok (err e) h = cc h

retried_ok :
    {A : Type 0} (missing : Bool) (second : Billing.Result A) {a : A}
    → (if missing then or_billing second else err billing) ≡ ok a
    → second ≡ ok a
retried_ok true second h = or_billing_ok second h
retried_ok false second h = cc h

or_model_ok :
    {A : Type 0} (first second : Billing.Result A) {a : A}
    → or_model first second ≡ ok a
    → (first ≡ ok a) ⊎ (second ≡ ok a)
or_model_ok (ok b) second h = inl (cc h)
or_model_ok (err e) second h = inr (retried_ok (is_price_missing e) second h)

ok_value : {A : Type 0} {x y : A} → ◌≡◌ {A = Result A} (ok x) (ok y) → x ≡ y
ok_value h = cc h

ok_of_next :
    {A B : Type 0} (first : Result A) (next : Result B) {b : B}
    → (first >> next) ≡ ok b
    → (a : A) × (first ≡ ok a) × (next ≡ ok b)
ok_of_next (ok a) next h = (a, refl, h)
ok_of_next (err e) next h = cc h

module _ (text_before : String → String → Bool) (month_start : ℕ → ℕ) where
  reserve-kept :
      (p : Payer) (req : ReserveRequest) (id : String) (now : Clock) (l : Ledger)
      (res : Reservation) (l' : Ledger)
      → IsPlain p.tenant_id (charged_subject p req)
      → reserve text_before month_start p req id now l ≡ ok (res, l')
      → (get_reservation p.tenant_id id l' ≡ ok (record res { created_at = now.database }))
        × (res.state ≡ State.held)
        × (res.dispatched_at ≡ none)
        × (l'.usage ≡ l.usage)
  reserve-kept p req id now l res l' plain h =
      let (found, was, fresh) =
        reserve-held text_before month_start p req id now l res l' plain h in
      let d = reserve_lem text_before month_start p req id now l res l' h in
      (found, was, fresh, ap (λ (m : Ledger). m.usage) d.ledger)

  -- The two requests that `reserve` makes charge the caller's own billing subject.
  reserve_priced-held :
      (p : Payer) (work : Work) (estimate : Usage) (capability endpoint model id : String)
      (now : Clock) (l : Ledger) (res : Reservation) (l' : Ledger)
      → IsPlain p.tenant_id (billing_subject_for p.tenant_id p.billing_subject)
      → reserve_priced text_before month_start p work estimate capability endpoint model id now l
        ≡ ok (res, l')
      → (get_reservation p.tenant_id id l' ≡ ok (record res { created_at = now.database }))
        × (res.state ≡ State.held)
        × (res.dispatched_at ≡ none)
        × (l'.usage ≡ l.usage)
  unfolding reserve_priced
  reserve_priced-held p work estimate capability endpoint model id now l res l' plain h =
      let first =
        reserve_request p.tenant_id work estimate "endpoint" endpoint capability endpoint model in
      let second =
        reserve_request p.tenant_id work estimate "model" model capability endpoint model in
      elim (or_model_ok (reserve text_before month_start p first id now l)
        (reserve text_before month_start p second id now l) h) [
          | inl made ↦ reserve-kept p first id now l res l' plain made
          | inr made ↦ reserve-kept p second id now l res l' plain made
        ]

module _ (store : SourceStore) (authorizer : ObjectAuthorizer) (artifacts : Option ArtifactStore)
    (conversations : Option ConversationStore) (equal_fold : String → String → Bool)
    (to_lower to_upper : String → String) (in_range : String → Bool)
    (decode : List ℕ → Option Fields) (payload_limit : ℤ) (endpoints : EndpointStore)
    (text_before : String → String → Bool) (month_start : ℕ → ℕ) where
  -- An attempt that `Execute` makes was decided for its endpoint, with an estimate inside the bounds of
  -- its capability; and where nothing fails it does not stay held. Its reservation is released if no
  -- transport could be made. It is unknown if the outcome is: an error that is not the provider's, any
  -- error of a streamed request, an answer without usage, a stream closed before its end. Otherwise it
  -- is settled, with a usage record of the units of the usage (of none, if the provider's error reports
  -- none) and the amount that they cost under the price of the reservation; or it is unknown and the
  -- settlement was refused, since usage was recorded under the id before, or the usage cannot be
  -- counted or charged. The caller's billing subject is as `subjectsFor` takes it.
  pub execute-Resolves :
      (p : Actor) (a : Allowlists) (subject : Subject) (work : Work) (reply : Option Reply)
      (id new : String) (now : Clock) (l : Ledger) (x : Executed)
      → IsPlain p.tenant_id (billing_subject_for p.tenant_id subject)
      → execute store authorizer artifacts conversations equal_fold to_lower to_upper in_range
          decode payload_limit endpoints text_before month_start p a subject work reply no_faults id
          new now l
        ≡ ok x
      → Eligible store authorizer artifacts conversations equal_fold p a work.request x.endpoint
          x.capability x.decision
        × (check_estimate x.capability (with_cached work.estimate) ≡ ok tt)
        × IsLeft p.tenant_id id x.ledger
            (Resolves p.tenant_id id x.reservation.price l.usage x.ledger work.stream reply)
  unfolding execute
  execute-Resolves p a subject work reply id new now l x plain h =
      let req = work.request in
      let payer : Payer = record { tenant_id = p.tenant_id; billing_subject = subject } in
      let (_, h₁) =
        require_then denied (not (str_eq p.tenant_id "" || str_eq p.principal.actor_id "")) _ h in
      let (_, _, h₂) = ok_of_next (or_unsupported (bound_for req.capability)) _ h₁ in
      let (vision, _, h₃) =
        ok_of_bind (analyze_payload to_lower to_upper in_range decode payload_limit req) _ h₂ in
      let capability = effective_capability req.capability vision in
      let (_, h₄) =
        require_then unsupported_capability (not (work.stream && str_eq capability "embeddings")) _
          h₃ in
      let (estimated, h₅) =
        ok_of_then (check_estimate capability (with_cached work.estimate)) _ h₄ in
      let (endpoint, _, h₆) = ok_of_bind (route endpoints p.tenant_id a req capability) _ h₅ in
      let (decision, decided, h₇) =
        ok_of_bind
          (evaluate store authorizer artifacts conversations equal_fold p a req endpoint capability)
          _ h₆ in
      let ((res, l'), reserved, h₈) =
        ok_of_bind
          (reserve_priced text_before month_start payer work (with_cached work.estimate) capability
            endpoint.id decision.upstream_model id now l)
          _ h₇ in
      let (found, was, fresh, usage) =
        reserve_priced-held text_before month_start payer work (with_cached work.estimate)
          capability endpoint.id decision.upstream_model id now l res l' plain reserved in
      subst
        (λ y.
          Eligible store authorizer artifacts conversations equal_fold p a req y.endpoint
            y.capability y.decision
          × (check_estimate y.capability (with_cached work.estimate) ≡ ok tt)
          × IsLeft p.tenant_id id y.ledger
              (Resolves p.tenant_id id y.reservation.price l.usage y.ledger work.stream reply))
        (ok_value h₈)
        (
          evaluate-Eligible store authorizer artifacts conversations equal_fold p a req endpoint
              capability decision decided,
          estimated,
          subst
              (λ recorded.
                let after = attempt p.tenant_id id work.stream no_faults new now reply l' in
                IsLeft p.tenant_id id after
                  (Resolves p.tenant_id id res.price recorded after work.stream reply))
              usage
              (attempt-left p.tenant_id id now work.stream new reply l'
                (record res { created_at = now.database }) found was fresh),
        )
