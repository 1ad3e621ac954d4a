-- ===== src/Inference/Inputs/Resolved.antt =====
-- `resolveInputs` of internal/inference/policy.go: what a request that passes has shown, and that every
-- restriction it met is kept.
use mini_enclava_go.Common.{
  ◌≡◌, refl, sym, Bool, true, not, ◌&&◌, ◌||◌, String, str_eq, eq_iff, List, [], ◌∷◌, Option, none,
  some, ok, err, require_then, ok_of_bind, ok_of_then, Each, arith,
}
use mini_enclava_go.Source.Types.{Object, ObjectVersion, SourceRestriction}
use mini_enclava_go.Source.Types as Source
use mini_enclava_go.Source.Authorizer.{merge_restriction, merge_all, no_restriction}
use mini_enclava_go.Source.Authorizer.Restrictions.{
  Keeps, Keeps-refl, Keeps-trans, merge_restriction-Keeps, merge_all-Keeps, Each-Keeps,
}
use mini_enclava_go.Inference.Payload.{denied, Result}
use mini_enclava_go.Inference.Inputs.{
  Actor, ObjectRef, ArtifactRef, ArtifactRow, Conversation, Inputs, SourceStore, ObjectAuthorizer,
  ArtifactStore, ConversationStore, or_refuse, or_unset, for_each, is_claimed, is_owned_by,
  merge_request, version_of, read_options, resolve_input, resolve_artifact, resolve_conversation,
  resolve_inputs,
}

or_refuse_ok : {A : Type 0} (r : Source.Result A) {a : A} → or_refuse r ≡ ok a → r ≡ ok a
or_refuse_ok (ok b) e = cc e
or_refuse_ok (err x) e = cc e

or_unset_ok : {A : Type 0} (o : Option A) {a : A} → or_unset o ≡ ok a → o ≡ some a
or_unset_ok (some b) e = cc e
or_unset_ok none e = cc e

both : (a b : Bool) → a && b ≡ true → (a ≡ true) × (b ≡ true)
both a b h = ground arith

abbrev pub IsNarrowed : Option SourceRestriction → SourceRestriction → Type 0
IsNarrowed none s = Unit
IsNarrowed (some r) s = Keeps r s

-- Each element of a list comes with evidence of E about some restrictions that s keeps.
abbrev pub Met :
    {A : Type 0} → (A → List SourceRestriction → Type 0) → List A → SourceRestriction → Type 0
Met E [] s = Unit
Met E (x ∷ xs) s =
    ((rows : List SourceRestriction) × E x rows × Each (λ r. Keeps r s) rows) × Met E xs s

for_each-Met :
    {A : Type 0} (E : A → List SourceRestriction → Type 0)
    (step : A → SourceRestriction → Result SourceRestriction)
    → ((x : A) (s t : SourceRestriction)
        → step x s ≡ ok t
        → (rows : List SourceRestriction) × E x rows × Keeps s t × Each (λ r. Keeps r t) rows)
    → (xs : List A) (s t : SourceRestriction) → for_each step xs s ≡ ok t
    → Keeps s t × Met E xs t
unfolding for_each
for_each-Met E step one [] s t h = let same : s ≡ t = cc h in (rw same (Keeps-refl t), tt)
for_each-Met E step one (x ∷ xs) s t h =
    let (u, stepped, rest) = ok_of_bind (step x s) (λ next. for_each step xs next) h in
    let (rows, evidence, before, kept) = one x s u stepped in
    let (after, others) = for_each-Met E step one xs u t rest in
    (Keeps-trans s u t before after, ((rows, evidence, Each-Keeps rows u t kept after), others))

Met-Keeps :
    {A : Type 0} (E : A → List SourceRestriction → Type 0) (xs : List A) (s t : SourceRestriction)
    → Met E xs s
    → Keeps s t
    → Met E xs t
Met-Keeps E [] s t m k = tt
Met-Keeps E (x ∷ xs) s t ((rows, evidence, kept), others) k =
    ((rows, evidence, Each-Keeps rows s t kept k), Met-Keeps E xs s t others k)

merged_one :
    (s r t : SourceRestriction)
    → ◌≡◌ {A = Result SourceRestriction} (ok (merge_restriction s r)) (ok t)
    → Keeps s t × Keeps r t
merged_one s r t h =
    let made : merge_restriction s r ≡ t = cc h in rw (sym made) (merge_restriction-Keeps s r)

merged_rows :
    (s : SourceRestriction) (rows : List SourceRestriction) (t : SourceRestriction)
    → ◌≡◌ {A = Result SourceRestriction} (ok (merge_all s rows)) (ok t)
    → Keeps s t × Each (λ r. Keeps r t) rows
merged_rows s rows t h =
    let made : merge_all s rows ≡ t = cc h in rw (sym made) (merge_all-Keeps s rows)

requested :
    (s : SourceRestriction) (narrowing : Option SourceRestriction) (t : SourceRestriction)
    → ◌≡◌ {A = Result SourceRestriction} (ok (merge_request s narrowing)) (ok t)
    → Keeps s t × IsNarrowed narrowing t
requested s none t h = let same : s ≡ t = cc h in rw (sym same) (Keeps-refl s, tt)
requested s (some r) t h = merged_one s r t h

module _ (store : SourceStore) (authorizer : ObjectAuthorizer) (artifacts : Option ArtifactStore)
    (conversations : Option ConversationStore) (equal_fold : String → String → Bool) where
  -- An input: its object is of the tenant, the version is of that object, the caller can read it under
  -- the request's narrowing, and its restrictions are those in force.
  pub record InputMet (p : Actor) (narrowing : Option SourceRestriction) (ref : ObjectRef)
      (rows : List SourceRestriction) : Type 0 where
    pub obj : Object
    pub ver : ObjectVersion
    pub restr : SourceRestriction
    pub found : store.get_object p.tenant_id ref.object_id ≡ ok obj
    pub tenant : obj.tenant_id ≡ p.tenant_id
    pub version :
        version_of store authorizer artifacts conversations equal_fold p.tenant_id obj.id
          ref.observed_seq
        ≡ ok ver
    pub of_object : ver.object_id ≡ obj.id
    pub readable :
        authorizer.can_read p.principal obj
          (read_options store authorizer artifacts conversations equal_fold narrowing)
        ≡ ok tt
    pub in_force : authorizer.effective_restrictions obj (some ver) "" ≡ ok restr
    pub all : rows ≡ restr ∷ []

  pub record ArtifactMet (p : Actor) (ref : ArtifactRef) (rows : List SourceRestriction)
      : Type 0 where
    pub get : ArtifactStore
    pub row : ArtifactRow
    pub is_set : artifacts ≡ some get
    pub found : get p.tenant_id ref.id ≡ ok row
    pub tenant : row.tenant_id ≡ p.tenant_id
    pub final : row.state ≡ "final"
    pub standing : row.tombstone_reason ≡ ""
    pub claimed : is_claimed equal_fold ref row ≡ true
    pub in_force : store.restrictions_for_subject p.tenant_id "artifact" ref.id ≡ ok rows

  pub record ConversationMet (p : Actor) (id : String) (rows : List SourceRestriction)
      : Type 0 where
    pub get : ConversationStore
    pub conv : Conversation
    pub is_set : conversations ≡ some get
    pub found : get p.tenant_id id ≡ ok conv
    pub tenant : conv.tenant_id ≡ p.tenant_id
    pub owned : is_owned_by p.principal conv ≡ true
    pub in_force : store.restrictions_for_subject p.tenant_id "conversation" id ≡ ok rows

  resolve_input-Met :
      (p : Actor) (narrowing : Option SourceRestriction) (ref : ObjectRef) (s t : SourceRestriction)
      → resolve_input store authorizer artifacts conversations equal_fold p narrowing ref s ≡ ok t
      → (rows : List SourceRestriction) × InputMet p narrowing ref rows
        × Keeps s t
        × Each (λ r. Keeps r t) rows
  unfolding resolve_input
  resolve_input-Met p narrowing ref s t h =
      let (_, h₁) =
        require_then denied (str_eq ref.tenant_id "" || str_eq ref.tenant_id p.tenant_id) _ h in
      let (obj, found, h₂) =
        ok_of_bind (or_refuse (store.get_object p.tenant_id ref.object_id)) _ h₁ in
      let (tenant, h₃) = require_then denied (str_eq obj.tenant_id p.tenant_id) _ h₂ in
      let (ver, version, h₄) =
        ok_of_bind
          (or_refuse (
            version_of store authorizer artifacts conversations equal_fold p.tenant_id obj.id
              ref.observed_seq))
          _ h₃ in
      let (of_object, h₅) = require_then denied (str_eq ver.object_id obj.id) _ h₄ in
      let (readable, h₆) =
        ok_of_then
          (or_refuse (
            authorizer.can_read p.principal obj
              (read_options store authorizer artifacts conversations equal_fold narrowing)))
          _ h₅ in
      let (restr, in_force, h₇) =
        ok_of_bind (or_refuse (authorizer.effective_restrictions obj (some ver) "")) _ h₆ in
      let (old, new) = merged_one s restr t h₇ in
      (
        restr ∷ [],
        record {
          obj = obj;
          ver = ver;
          restr = restr;
          found = or_refuse_ok _ found;
          tenant = ground (arith, eq_iff obj.tenant_id p.tenant_id, tenant);
          version = or_refuse_ok _ version;
          of_object = ground (arith, eq_iff ver.object_id obj.id, of_object);
          readable = or_refuse_ok _ readable;
          in_force = or_refuse_ok _ in_force;
          all = refl;
        },
        old,
        (new, tt),
      )

  resolve_artifact-Met :
      (p : Actor) (ref : ArtifactRef) (s t : SourceRestriction)
      → resolve_artifact store authorizer artifacts conversations equal_fold p ref s ≡ ok t
      → (rows : List SourceRestriction) × ArtifactMet p ref rows
        × Keeps s t
        × Each (λ r. Keeps r t) rows
  unfolding resolve_artifact
  resolve_artifact-Met p ref s t h =
      let (get, is_set, h₁) = ok_of_bind (or_unset artifacts) _ h in
      let (_, h₂) =
        require_then denied
          (not (str_eq ref.id "") && (str_eq ref.tenant_id "" || str_eq ref.tenant_id p.tenant_id))
          _ h₁ in
      let (row, found, h₃) = ok_of_bind (or_refuse (get p.tenant_id ref.id)) _ h₂ in
      let (tenant, h₄) = require_then denied (str_eq row.tenant_id p.tenant_id) _ h₃ in
      let (usable, h₅) =
        require_then denied
          (str_eq row.state "final"
            && (str_eq row.tombstone_reason "" && is_claimed equal_fold ref row))
          _ h₄ in
      let (rows, in_force, h₆) =
        ok_of_bind (or_refuse (store.restrictions_for_subject p.tenant_id "artifact" ref.id)) _
          h₅ in
      let (old, new) = merged_rows s rows t h₆ in
      let (final, rest) =
        both (str_eq row.state "final")
          (str_eq row.tombstone_reason "" && is_claimed equal_fold ref row) usable in
      let (standing, claimed) =
        both (str_eq row.tombstone_reason "") (is_claimed equal_fold ref row) rest in
      (
        rows,
        record {
          get = get;
          row = row;
          is_set = or_unset_ok artifacts is_set;
          found = or_refuse_ok _ found;
          tenant = ground (arith, eq_iff row.tenant_id p.tenant_id, tenant);
          final = ground (arith, eq_iff row.state "final", final);
          standing = ground (arith, eq_iff row.tombstone_reason "", standing);
          claimed = claimed;
          in_force = or_refuse_ok _ in_force;
        },
        old,
        new,
      )

  resolve_conversation-Met :
      (p : Actor) (id : String) (s t : SourceRestriction)
      → resolve_conversation store authorizer artifacts conversations equal_fold p id s ≡ ok t
      → (rows : List SourceRestriction) × ConversationMet p id rows
        × Keeps s t
        × Each (λ r. Keeps r t) rows
  unfolding resolve_conversation
  resolve_conversation-Met p id s t h =
      let (_, h₁) = require_then denied (not (str_eq id "")) _ h in
      let (get, is_set, h₂) = ok_of_bind (or_unset conversations) _ h₁ in
      let (conv, found, h₃) = ok_of_bind (or_refuse (get p.tenant_id id)) _ h₂ in
      let (tenant, h₄) = require_then denied (str_eq conv.tenant_id p.tenant_id) _ h₃ in
      let (owned, h₅) = require_then denied (is_owned_by p.principal conv) _ h₄ in
      let (rows, in_force, h₆) =
        ok_of_bind (or_refuse (store.restrictions_for_subject p.tenant_id "conversation" id)) _
          h₅ in
      let (old, new) = merged_rows s rows t h₆ in
      (
        rows,
        record {
          get = get;
          conv = conv;
          is_set = or_unset_ok conversations is_set;
          found = or_refuse_ok _ found;
          tenant = ground (arith, eq_iff conv.tenant_id p.tenant_id, tenant);
          owned = owned;
          in_force = or_refuse_ok _ in_force;
        },
        old,
        new,
      )

  -- What a request has shown when its effective restrictions are s.
  pub record Resolved (p : Actor) (req : Inputs) (s : SourceRestriction) : Type 0 where
    pub tenant_rows : List SourceRestriction
    pub tenant_policy :
        store.restrictions_for_subject p.tenant_id "tenant" p.tenant_id ≡ ok tenant_rows
    pub keeps_tenant : Each (λ r. Keeps r s) tenant_rows
    pub inputs_met : Met (InputMet p req.restriction) req.inputs s
    pub artifacts_met : Met (ArtifactMet p) req.artifacts s
    pub conversations_met : Met (ConversationMet p) req.conversations s
    pub narrowed : IsNarrowed req.restriction s

  -- `resolveInputs` returns effective restrictions only for a request each of whose inputs is an
  -- object of the tenant in a version of its own that the caller may read, each of whose artifacts is
  -- final, stands and is what the request says it is, and each of whose conversations the caller or
  -- its delegator owns; and they keep every restriction in force for any of these, for the tenant, and
  -- in the request: what one of them denies is denied, and its assurance ranks no higher.
  pub resolve_inputs-Resolved :
      (p : Actor) (req : Inputs) (s : SourceRestriction)
      → resolve_inputs store authorizer artifacts conversations equal_fold p req ≡ ok s
      → Resolved p req s
  unfolding resolve_inputs
  resolve_inputs-Resolved p req s h =
      let (rows, policy, h₁) =
        ok_of_bind (or_refuse (store.restrictions_for_subject p.tenant_id "tenant" p.tenant_id)) _
          h in
      let step_input =
        resolve_input store authorizer artifacts conversations equal_fold p req.restriction in
      let step_artifact = resolve_artifact store authorizer artifacts conversations equal_fold p in
      let step_conversation =
        resolve_conversation store authorizer artifacts conversations equal_fold p in
      let (a, inputs, h₂) =
        ok_of_bind (for_each step_input req.inputs (merge_all no_restriction rows)) _ h₁ in
      let (b, files, h₃) = ok_of_bind (for_each step_artifact req.artifacts a) _ h₂ in
      let (c, talks, h₄) = ok_of_bind (for_each step_conversation req.conversations b) _ h₃ in
      let (_, kept) = merge_all-Keeps no_restriction rows in
      let (before_a, inputs_met) =
        for_each-Met (InputMet p req.restriction) step_input (resolve_input-Met p req.restriction)
          req.inputs (merge_all no_restriction rows) a inputs in
      let (before_b, files_met) =
        for_each-Met (ArtifactMet p) step_artifact (resolve_artifact-Met p) req.artifacts a b
          files in
      let (before_c, talks_met) =
        for_each-Met (ConversationMet p) step_conversation (resolve_conversation-Met p)
          req.conversations b c talks in
      let (end, narrowed) = requested c req.restriction s h₄ in
      let from_b = Keeps-trans b c s before_c end in
      let from_a = Keeps-trans a b s before_b from_b in
      record {
        tenant_rows = rows;
        tenant_policy = or_refuse_ok _ policy;
        keeps_tenant =
            Each-Keeps rows (merge_all no_restriction rows) s kept
              (Keeps-trans (merge_all no_restriction rows) a s before_a from_a);
        inputs_met = Met-Keeps (InputMet p req.restriction) req.inputs a s inputs_met from_a;
        artifacts_met = Met-Keeps (ArtifactMet p) req.artifacts b s files_met from_b;
        conversations_met = Met-Keeps (ConversationMet p) req.conversations c s talks_met end;
        narrowed = narrowed;
      }
