-- ===== src/Inference/Routing/Authorized.antt =====
-- What a decision of `AuthorizeDestination` of internal/inference/policy.go stands on.
use mini_enclava_go.Common.{
  ℕ, ◌≡◌, ◌≤◌, refl, sym, ap, subst, ◌∙◌, ◌⊎◌, inl, inr, Bool, true, false, not, ◌&&◌, ◌||◌, ltb,
  length, String, str_eq, eq_iff, List, Option, none, some, ok, require_then, ok_of_bind, arith,
  Bool-cases,
}
use mini_enclava_go.Common.Int64.{ℤ, pos, pos_part, ltb_ℤ}
use mini_enclava_go.Source.Types.{SourceRestriction}
use mini_enclava_go.Source.Authorizer.{contains, is_some, assurance_rank}
use mini_enclava_go.Source.Authorizer.Restrictions.{Keeps}
use mini_enclava_go.Inference.Payload.{denied, no_route, Json, object, Fields, walk_payload}
use mini_enclava_go.Inference.Payload.Permitted.{Within, IsPermitted}
use mini_enclava_go.Inference.Payload.Iff.{walk_payload_iff}
use mini_enclava_go.Inference.Inputs.{
  Actor, SourceStore, ObjectAuthorizer, ArtifactStore, ConversationStore, resolve_inputs,
}
use mini_enclava_go.Inference.Inputs.Resolved.{Resolved, resolve_inputs-Resolved}
use mini_enclava_go.Inference.Routing.{
  Allowlists, Endpoint, Request, Decision, endpoint_allowed, model_allowed, upstream_model_for,
  or_unbound, capability_advertised, assurance_satisfied, is_verifiable, decoded, analyze_payload,
  effective_capability, evaluate, authorize_destination,
}

or_unbound_ok : (o : Option String) {u : String} → or_unbound o ≡ ok u → o ≡ some u
or_unbound_ok none e = cc e
or_unbound_ok (some u) e = cc e

split_and : (a b : Bool) → a && b ≡ true → (a ≡ true) × (b ≡ true)
split_and a b h = ground arith

split_or : (a b : Bool) → a || b ≡ true → (a ≡ true) ⊎ (b ≡ true)
split_or true b h = inl refl
split_or false b h = inr h

-- A capability that one restriction denies is denied by every restriction that keeps it.
not_denied :
    (r s : SourceRestriction) (c : String)
    → Keeps r s
    → not (contains s.denied_capabilities c) ≡ true
    → contains r.denied_capabilities c ≡ false
not_denied r s c k h = elim (Bool-cases (contains r.denied_capabilities c)) [
  | inr free ↦ free
  | inl listed ↦ let still = k.1 c listed in absurd (cc (ap (λ b. not b) still ∙ refl, h))
]

-- An assurance above `standard` needs the verification of the endpoint.
assurance_satisfied-verified :
    (e : Endpoint) (level : String)
    → 2 ≤ assurance_rank level
    → assurance_satisfied e level ≡ true
    → is_some e.assurance_verified_at ≡ true
unfolding assurance_satisfied assurance_rank
assurance_satisfied-verified e level h g = elim (Bool-cases (str_eq level "")) [
  | inl empty ↦ absurd (ground (arith, empty, h))
  | inr named ↦ elim (Bool-cases (str_eq level "standard")) [
    | inl standard ↦ absurd (ground (arith, named, standard, h))
    | inr high ↦ ground (arith, named, high, g)
  ]
]

module _ (store : SourceStore) (authorizer : ObjectAuthorizer) (artifacts : Option ArtifactStore)
    (conversations : Option ConversationStore) (equal_fold : String → String → Bool) where
  -- What `evaluate` has found of an endpoint and a request.
  pub record Eligible (p : Actor) (a : Allowlists) (req : Request) (dest : Endpoint)
      (capability : String) (d : Decision) : Type 0 where
    pub enabled : dest.enabled ≡ true
    pub allowed : endpoint_allowed a dest.id ≡ true
    pub named : (req.model ≡ "") ⊎ (model_allowed a req.model ≡ true)
    pub bound : upstream_model_for dest.capabilities req.model ≡ some d.upstream_model
    pub advertised : capability_advertised dest capability ≡ true
    pub resolved :
        Resolved store authorizer artifacts conversations equal_fold p req.inputs d.effective
    pub routed : d.capability ≡ capability
    pub undenied :
        (r : SourceRestriction)
        → Keeps r d.effective
        → contains r.denied_capabilities capability ≡ false
    pub assured :
        (r : SourceRestriction)
        → Keeps r d.effective
        → 2 ≤ assurance_rank r.required_assurance
        → (is_some dest.assurance_verified_at ≡ true) ⊎ (dest.protocol ≡ "tinfoil")

  found-Eligible :
      (p : Actor) (a : Allowlists) (req : Request) (dest : Endpoint) (capability : String)
      (d : Decision) (upstream : String) (effective : SourceRestriction)
      → dest.enabled ≡ true
      → endpoint_allowed a dest.id ≡ true
      → (str_eq req.model "" ≡ true) ⊎ (model_allowed a req.model ≡ true)
      → upstream_model_for dest.capabilities req.model ≡ some upstream
      → capability_advertised dest capability ≡ true
      → resolve_inputs store authorizer artifacts conversations equal_fold p req.inputs
        ≡ ok effective
      → not (contains effective.denied_capabilities capability) ≡ true
      → (assurance_satisfied dest effective.required_assurance ≡ true) ⊎ (is_verifiable dest ≡ true)
      → record { capability = capability; upstream_model = upstream; effective = effective } ≡ d
      → Eligible p a req dest capability d
  found-Eligible p a req dest capability d upstream effective enabled allowed named bound advertised
        resolving undenied assured e =
      rw (sym e) (record {
        enabled = enabled;
        allowed = allowed;
        named = elim named [
          | inl empty ↦ inl (ground (arith, eq_iff req.model "", empty))
          | inr may ↦ inr may
        ];
        bound = bound;
        advertised = advertised;
        resolved =
            resolve_inputs-Resolved store authorizer artifacts conversations equal_fold p req.inputs
              effective resolving;
        routed = refl;
        undenied = λ r k. not_denied r effective capability k undenied;
        assured = λ r k high. elim assured [
          | inl verified ↦ inl (
              assurance_satisfied-verified dest effective.required_assurance
                (omega (arith, k.0, high)) verified)
          | inr live ↦ inr (ground (arith, eq_iff dest.protocol "tinfoil", live))
        ];
      })

  pub evaluate-Eligible :
      (p : Actor) (a : Allowlists) (req : Request) (dest : Endpoint) (capability : String)
      (d : Decision)
      → evaluate store authorizer artifacts conversations equal_fold p a req dest capability ≡ ok d
      → Eligible p a req dest capability d
  unfolding evaluate
  evaluate-Eligible p a req dest capability d h =
      let (first, h₁) = require_then denied (dest.enabled && endpoint_allowed a dest.id) _ h in
      let (enabled, allowed) = split_and dest.enabled (endpoint_allowed a dest.id) first in
      let (model, h₂) =
        require_then denied (str_eq req.model "" || model_allowed a req.model) _ h₁ in
      let (upstream, bound, h₃) =
        ok_of_bind (or_unbound (upstream_model_for dest.capabilities req.model)) _ h₂ in
      let (advertised, h₄) = require_then no_route (capability_advertised dest capability) _ h₃ in
      let (effective, resolving, h₅) =
        ok_of_bind (resolve_inputs store authorizer artifacts conversations equal_fold p req.inputs)
          _ h₄ in
      let (undenied, h₆) =
        require_then denied (not (contains effective.denied_capabilities capability)) _ h₅ in
      let (assured, h₇) =
        require_then no_route
          (assurance_satisfied dest effective.required_assurance || is_verifiable dest) _ h₆ in
      found-Eligible p a req dest capability d upstream effective enabled allowed
        (split_or (str_eq req.model "") (model_allowed a req.model) model) (or_unbound_ok _ bound)
        advertised resolving undenied
        (split_or (assurance_satisfied dest effective.required_assurance) (is_verifiable dest)
          assured)
        (cc h₇)

  -- `AuthorizeDestination` decides only for an endpoint of the caller's own tenant that is enabled, that
  -- the caller may use, that binds the model and advertises the capability: the payload decodes to a
  -- document in which every value is permitted, every input is resolved, and no restriction that the
  -- effective ones keep, so none that was met, denies the capability or requires more than `standard`
  -- assurance of an endpoint that is neither verified nor verifiable.
  pub authorize_destination-Eligible :
      (to_lower to_upper : String → String) (in_range : String → Bool)
      (decode : List ℕ → Option Fields) (payload_limit : ℤ) (p : Actor) (a : Allowlists)
      (req : Request) (dest : Endpoint) (d : Decision)
      → authorize_destination store authorizer artifacts conversations equal_fold to_lower to_upper
          in_range decode payload_limit p a req dest
        ≡ ok d
      → (dest.tenant_id ≡ p.tenant_id)
        × ((root : Fields) × (decoded to_lower to_upper in_range decode payload_limit req.payload
              ≡ ok root)
            × ((node : Json) (q : String)
                → Within to_lower in_range (object root) "" node q
                → IsPermitted to_lower in_range node q))
        × Eligible p a req dest d.capability d
  unfolding authorize_destination analyze_payload
  authorize_destination-Eligible to_lower to_upper in_range decode payload_limit p a req dest d h =
      let (tenant, h₁) =
        require_then denied (not (str_eq p.tenant_id "") && str_eq dest.tenant_id p.tenant_id) _
          h in
      let (_, own) =
        split_and (not (str_eq p.tenant_id "")) (str_eq dest.tenant_id p.tenant_id) tenant in
      let (vision, analyzed, h₂) =
        ok_of_bind (analyze_payload to_lower to_upper in_range decode payload_limit req) _ h₁ in
      let (_, a₁) =
        require_then denied
          (not (ltb_ℤ (pos 0) payload_limit && ltb (pos_part payload_limit) (length req.payload))) _
          analyzed in
      let (root, decoding, a₂) =
        ok_of_bind (decoded to_lower to_upper in_range decode payload_limit req.payload) _ a₁ in
      let (v, walked, _) =
        ok_of_bind (walk_payload to_lower in_range (object root) false "") _ a₂ in
      let eligible =
        evaluate-Eligible p a req dest (effective_capability req.capability vision) d h₂ in
      (
        ground (arith, eq_iff dest.tenant_id p.tenant_id, own),
        (root, decoding, (walk_payload_iff to_lower in_range (object root) false "").0 (v, walked)),
        subst (λ c. Eligible p a req dest c d) (sym eligible.routed) eligible,
      )
