-- ===== src/Examples/Policy.antt =====
-- The policy of internal/inference at a concrete request.
use mini_enclava_go.Common.{
  ℕ, ◌≡◌, ◌↔◌, ◌⊎◌, refl, Bool, true, false, String, List, [], ◌∷◌, Option, none, some, ok, err,
  Each,
}
use mini_enclava_go.Common.Int64.{pos}
use mini_enclava_go.Source.Types.{Object, owner, ObjectVersion, SourceRestriction}
use mini_enclava_go.Source.Authorizer.{
  merge_restriction, merge_all, add_new, assurance_rank, contains,
}
use mini_enclava_go.Inference.Payload.{
  no_route, Json, boolean, text, array, object, nil, item, Fields, end, field, walk_payload,
  check_field, check_discriminator, check_type, find_field, has_prefix,
}
use mini_enclava_go.Inference.Payload.Permitted.{Within, IsPermitted}
use mini_enclava_go.Inference.Payload.Iff.{walk_payload_iff}
use mini_enclava_go.Inference.Inputs.{
  Actor, Inputs, SourceStore, ObjectAuthorizer, resolve_inputs, for_each, resolve_input,
}
use mini_enclava_go.Inference.Inputs.Resolved.{Resolved, resolve_inputs-Resolved}
use mini_enclava_go.Inference.Payload.{codes}
use mini_enclava_go.Inference.Routing.Strings.{cut_prefix, cut, split}
use mini_enclava_go.Inference.Routing.Target.{
  validate_responses_target, is_target_path, valid_path_tail, all_segments, all_chars,
  contains_text, drop_prefix, is_method,
}
use mini_enclava_go.Inference.Routing.Target.Shape.{IsTarget, validate_responses_target-IsTarget}
use mini_enclava_go.Inference.Routing.{
  Allowlists, Endpoint, Request, Decision, EndpointStore, authorize_destination, analyze_payload,
  check_previous, evaluate, upstream_model_for, bound_model, assurance_satisfied, decoded, route,
}
use mini_enclava_go.Inference.Routing.First.{IsFirst, IsEligible, route-IsFirst}
use mini_enclava_go.Inference.Routing.Authorized.{Eligible, authorize_destination-Eligible}

abbrev same : String → String
same s = s

abbrev any_number : String → Bool
any_number n = true

-- {"content": [{"type": "input_image", "image_url": "data:x"}], "store": false}
abbrev fields : Fields
fields =
    field "content"
      (array (
        item (object (field "type" (text "input_image") (field "image_url" (text "data:x") end)))
          nil))
      (field "store" (boolean false) end)

walk_payload_iff_example :
    ((v : Bool) × (walk_payload same any_number (object fields) false "" ≡ ok v)) ↔ (
      (node : Json) (q : String)
      → Within same any_number (object fields) "" node q
      → IsPermitted same any_number node q)
walk_payload_iff_example = walk_payload_iff same any_number (object fields) false ""

needs_vision : walk_payload same any_number (object fields) false "" ≡ ok true
unfolding walk_payload check_field check_discriminator check_type find_field has_prefix
needs_vision = refl

-- A chained response under an empty key is let through, with any value.
chained_under_empty :
    walk_payload same any_number
      (object (field "" (object (field "previous_response_id" (boolean true) end)) end))
      false
      ""
    ≡ ok false
unfolding walk_payload check_field check_discriminator check_type find_field has_prefix
chained_under_empty = refl

abbrev payer : Actor
payer = record {
  tenant_id = "t1";
  principal = record { actor_id = "a1"; user_id = ""; delegated_by_actor_id = "" };
}

abbrev document : Object
document = record {
  tenant_id = "t1";
  connection_id = "";
  id = "o1";
  authorization_mode = owner;
  owner_actor_id = "a1";
  audience = [];
  deleted_at = none;
  tombstoned_at = none;
}

abbrev version : ObjectVersion
version = record { object_id = "o1"; observed_seq = 1; restrictions = [] }

abbrev no_compact : SourceRestriction
no_compact = record {
  required_assurance = "high";
  denied_capabilities = "responses/compact" ∷ [];
  policy_labels = [];
}

abbrev store : SourceStore
store = record {
  get_object = λ tenant id. ok document;
  get_object_version = λ tenant id seq. ok version;
  latest_object_version = λ tenant id. ok version;
  restrictions_for_subject = λ tenant kind id. ok (no_compact ∷ []);
}

abbrev authorizer : ObjectAuthorizer
authorizer = record {
  can_read = λ p obj opts. ok tt;
  effective_restrictions = λ obj ver artifact. ok no_compact;
}

abbrev inputs : Inputs
inputs = record {
  inputs = record { tenant_id = "t1"; object_id = "o1"; observed_seq = pos 1 } ∷ [];
  artifacts = [];
  conversations = [];
  restriction = none;
}

abbrev effective : SourceRestriction
effective = no_compact

resolved_now : resolve_inputs store authorizer none none (λ s t. false) payer inputs ≡ ok effective
unfolding resolve_inputs for_each resolve_input merge_restriction merge_all add_new assurance_rank
    contains
resolved_now = refl

resolve_inputs-Resolved_example :
    Resolved store authorizer none none (λ s t. false) payer inputs effective
resolve_inputs-Resolved_example =
    resolve_inputs-Resolved store authorizer none none (λ s t. false) payer inputs effective
      resolved_now

abbrev dest : Endpoint
dest = record {
  id = "e1";
  tenant_id = "t1";
  protocol = "tinfoil";
  capabilities = "vision" ∷ "model:m=upstream" ∷ [];
  assurance_verified_at = none;
  enabled = true;
}

abbrev lists : Allowlists
lists = record { all_endpoints = true; endpoints = []; all_models = false; models = "m" ∷ [] }

abbrev request : Request
request = record {
  capability = "chat/completions";
  model = "m";
  endpoint_id = "";
  payload = b'{' ∷ [];
  method = "";
  path = "";
  inputs = inputs;
}

abbrev decision : Decision
decision = record { capability = "vision"; upstream_model = "upstream"; effective = effective }

abbrev decode : List ℕ → Option Fields
decode payload = some fields

decided :
    authorize_destination store authorizer none none
      (λ s t. false)
      same
      same
      any_number
      decode
      (pos 100)
      payer
      lists
      request
      dest
    ≡ ok decision
unfolding authorize_destination analyze_payload evaluate walk_payload check_field
    check_discriminator check_type find_field has_prefix check_previous validate_responses_target
    upstream_model_for bound_model cut_prefix cut assurance_satisfied resolve_inputs for_each
    resolve_input merge_restriction merge_all add_new assurance_rank contains
decided = refl

authorize_destination-Eligible_example :
    (dest.tenant_id ≡ payer.tenant_id)
    × ((root : Fields) × (decoded same same any_number decode (pos 100) request.payload ≡ ok root)
        × ((node : Json) (q : String)
            → Within same any_number (object root) "" node q
            → IsPermitted same any_number node q))
    × Eligible store authorizer none none (λ s t. false) payer lists request dest "vision" decision
authorize_destination-Eligible_example =
    authorize_destination-Eligible store authorizer none none (λ s t. false) same same any_number
      decode (pos 100) payer lists request dest decision decided

abbrev endpoints : EndpointStore
endpoints = record {
  get = λ tenant id. ok dest;
  list_capabilities = λ tenant capability. ok (record dest { enabled = false } ∷ dest ∷ []);
}

route-IsFirst_example :
    ((e : Endpoint) × (route endpoints "t1" lists request "vision" ≡ ok e)
      × IsFirst (IsEligible lists "m" "vision") e (record dest { enabled = false } ∷ dest ∷ []))
    ⊎ ((route endpoints "t1" lists request "vision" ≡ err no_route)
        × Each
            (λ e. ¬ IsEligible lists "m" "vision" e)
            (record dest { enabled = false } ∷ dest ∷ []))
route-IsFirst_example =
    route-IsFirst endpoints "t1" lists request "vision"
      (record dest { enabled = false } ∷ dest ∷ []) refl

-- A binding of the empty alias resolves a request without a model.
empty_alias : upstream_model_for ("chat/completions" ∷ "model:=upstream" ∷ []) "" ≡ some "upstream"
unfolding upstream_model_for bound_model cut_prefix cut
empty_alias = refl

abbrev cancel_path : String
cancel_path = "/responses/r_1/cancel"

validate_responses_target-IsTarget_example :
    (is_method "POST" ≡ true) × ((cancel_path ≡ "") ⊎ IsTarget (codes cancel_path))
unfolding validate_responses_target is_target_path valid_path_tail all_segments all_chars
    contains_text drop_prefix has_prefix split
validate_responses_target-IsTarget_example =
    validate_responses_target-IsTarget same "responses" "POST" cancel_path refl refl
