-- ===== src/Inference/Routing.antt =====
-- The decision on a destination: `analyzePayload`, `effectiveCapability`, `AuthorizeDestination`,
-- `evaluate` and `route` of internal/inference/policy.go, `assuranceSatisfied`, `upstreamModelFor` and
-- `capabilityAdvertised` of types.go, and the allowlists of internal/auth/principal.go. The decoder of
-- encoding/json is an argument: it returns the fields of the one object that a payload holds.
pub mod Strings
pub mod Target
pub mod Authorized
pub mod First
use mini_enclava_go.Common.{
  ℕ, Bool, true, false, not, ◌&&◌, ◌||◌, String, str_eq, List, [], ◌∷◌, Option, none, some, ok, err,
  ◌>>=◌, ◌>>◌, require, ltb, length, if◌then◌else◌, find_where,
}
use mini_enclava_go.Common.Int64.{ℤ, pos, pos_part, ltb_ℤ}
use mini_enclava_go.Source.Types.{SourceRestriction}
use mini_enclava_go.Source.Types as Source
use mini_enclava_go.Source.Authorizer.{contains, is_some}
use mini_enclava_go.Inference.Payload.{
  Error, denied, no_route, storage, Result, Json, text, Fields, object, find_field, walk_payload,
  previous_response_id_key,
}
use mini_enclava_go.Inference.Inputs.{
  Actor, Inputs, SourceStore, ObjectAuthorizer, ArtifactStore, ConversationStore, resolve_inputs,
}
use mini_enclava_go.Inference.Routing.Strings.{cut_prefix, cut}
use mini_enclava_go.Inference.Routing.Target.{validate_responses_target, is_responses_capability}

-- The allowlists of `auth.Principal`.
pub record Allowlists : Type 0 where
  pub all_endpoints : Bool
  pub endpoints : List String
  pub all_models : Bool
  pub models : List String

pub record Endpoint : Type 0 where
  pub id : String
  pub tenant_id : String
  pub protocol : String
  pub capabilities : List String
  pub assurance_verified_at : Option ℕ
  pub enabled : Bool

pub record Request : Type 0 where
  pub capability : String
  pub model : String
  pub endpoint_id : String
  pub payload : List ℕ
  pub method : String
  pub path : String
  pub inputs : Inputs

pub record Decision : Type 0 where
  pub capability : String
  pub upstream_model : String
  pub effective : SourceRestriction

abbrev pub allowlist_allowed : Bool → List String → String → Bool
allowlist_allowed all items id = all || (contains items "*" || contains items id)

abbrev pub endpoint_allowed : Allowlists → String → Bool
endpoint_allowed a id = allowlist_allowed a.all_endpoints a.endpoints id

abbrev pub model_allowed : Allowlists → String → Bool
model_allowed a model = allowlist_allowed a.all_models a.models model

abbrev pub model_capability_prefix : String
model_capability_prefix = "model:"

-- One binding: `alias=upstream`, or an alias that is the upstream model.
unfoldable pub bound_model : String → String → Option (String × String) → Option String
bound_model alias binding (some (a, upstream)) =
    if str_eq a alias && not (str_eq upstream "") then some upstream else none
bound_model alias binding none = if str_eq binding alias then some alias else none

unfoldable pub upstream_model_for : List String → String → Option String
upstream_model_for [] alias = none
upstream_model_for (capability ∷ capabilities) alias =
    elim (cut_prefix model_capability_prefix capability) [
      | none ↦ upstream_model_for capabilities alias
      | some binding ↦ elim (bound_model alias binding (cut b'=' binding)) [
        | some upstream ↦ some upstream
        | none ↦ upstream_model_for capabilities alias
      ]
    ]

abbrev pub capability_advertised : Endpoint → String → Bool
capability_advertised e capability = contains e.capabilities capability

unfoldable pub assurance_satisfied : Endpoint → String → Bool
assurance_satisfied e required =
    if str_eq required ""
    then true
    else if str_eq required "standard"
    then true
    else is_some e.assurance_verified_at

abbrev pub is_verifiable : Endpoint → Bool
is_verifiable e = str_eq e.protocol "tinfoil"

abbrev pub or_unbound : Option String → Result String
or_unbound (some upstream) = ok upstream
or_unbound none = err denied

abbrev pub or_malformed : Option Fields → Result Fields
or_malformed (some root) = ok root
or_malformed none = err denied

-- The tests on a chained response at the root.
unfoldable pub check_previous : String → Option Json → Result (Unit {0})
check_previous capability none = ok tt
check_previous capability (some prev) = do
  require (is_responses_capability capability) denied
  elim prev [ text s ↦ require (not (str_eq s "")) denied | _ ↦ err denied ]

abbrev pub effective_capability : String → Bool → String
effective_capability capability needs_vision =
    if str_eq capability "chat/completions" && needs_vision then "vision" else capability

module _ (to_lower to_upper : String → String) (in_range : String → Bool)
    (decode : List ℕ → Option Fields) (payload_limit : ℤ) where
  -- The empty payload is not decoded.
  abbrev pub decoded : List ℕ → Result Fields
  decoded [] = ok Fields.end
  decoded (c ∷ cs) = or_malformed (decode (c ∷ cs))

  -- Whether vision is needed.
  unfoldable pub analyze_payload : Request → Result Bool
  analyze_payload req = do
    require (not (ltb_ℤ (pos 0) payload_limit && ltb (pos_part payload_limit) (length req.payload)))
        denied
    root ← decoded req.payload
    needs_vision ← walk_payload to_lower in_range (object root) false ""
    check_previous req.capability (find_field previous_response_id_key root)
    validate_responses_target to_upper req.capability req.method req.path
    ok needs_vision

module _ (store : SourceStore) (authorizer : ObjectAuthorizer) (artifacts : Option ArtifactStore)
    (conversations : Option ConversationStore) (equal_fold : String → String → Bool) where
  unfoldable pub evaluate : Actor → Allowlists → Request → Endpoint → String → Result Decision
  evaluate p a req dest capability = do
    require (dest.enabled && endpoint_allowed a dest.id) denied
    require (str_eq req.model "" || model_allowed a req.model) denied
    upstream ← or_unbound (upstream_model_for dest.capabilities req.model)
    require (capability_advertised dest capability) no_route
    effective ← resolve_inputs store authorizer artifacts conversations equal_fold p req.inputs
    require (not (contains effective.denied_capabilities capability)) denied
    require (assurance_satisfied dest effective.required_assurance || is_verifiable dest) no_route
    ok (record { capability = capability; upstream_model = upstream; effective = effective })

  unfoldable pub authorize_destination :
      (to_lower to_upper : String → String) (in_range : String → Bool)
      (decode : List ℕ → Option Fields) (payload_limit : ℤ)
      → Actor
      → Allowlists
      → Request
      → Endpoint
      → Result Decision
  authorize_destination to_lower to_upper in_range decode payload_limit p a req dest = do
    require (not (str_eq p.tenant_id "") && str_eq dest.tenant_id p.tenant_id) denied
    needs_vision ← analyze_payload to_lower to_upper in_range decode payload_limit req
    evaluate p a req dest (effective_capability req.capability needs_vision)

-- `EndpointRepository`, as far as a route reads it.
pub record EndpointStore : Type 0 where
  pub get : String → String → Source.Result Endpoint
  pub list_capabilities : String → String → Source.Result (List Endpoint)

-- The tests of the loop of `route`.
abbrev pub is_eligible : Allowlists → String → String → Endpoint → Bool
is_eligible a model capability e =
    e.enabled
    && (capability_advertised e capability
        && (endpoint_allowed a e.id
            && (model_allowed a model && is_some (upstream_model_for e.capabilities model))))

abbrev pub or_no_route : Option Endpoint → Result Endpoint
or_no_route (some e) = ok e
or_no_route none = err no_route

abbrev pub pinned : Source.Result Endpoint → Result (List Endpoint)
pinned (ok e) = ok (e ∷ [])
pinned (err x) = err no_route

abbrev pub listed : Source.Result (List Endpoint) → Result (List Endpoint)
listed (ok es) = ok es
listed (err x) = err storage

abbrev pub candidates : EndpointStore → String → Request → String → Result (List Endpoint)
candidates endpoints tenant req capability =
    if not (str_eq req.endpoint_id "")
    then pinned (endpoints.get tenant req.endpoint_id)
    else listed (endpoints.list_capabilities tenant capability)

unfoldable pub route : EndpointStore → String → Allowlists → Request → String → Result Endpoint
route endpoints tenant a req capability = do
  found ← candidates endpoints tenant req capability
  or_no_route (find_where (is_eligible a req.model capability) found)
