-- ===== src/Inference/Inputs.antt =====
-- `resolveInputs` of internal/inference/policy.go. The stores of the service and its authorizer are
-- records of the calls that it makes, and a store that is not set is none. `mergeInto` and `unionOf`
-- repeat the functions of internal/source/authorize.go, and `assuranceRankOf` too.
pub mod Resolved
use mini_enclava_go.Common.{
  ℕ, Bool, true, false, not, ◌&&◌, ◌||◌, ◌==◌, String, str_eq, List, [], ◌∷◌, Option, none, some,
  Outcome, ok, err, ◌>>=◌, ◌>>◌, require, if◌then◌else◌,
}
use mini_enclava_go.Common.Int64.{ℤ, pos, pos_part, ltb_ℤ}
use mini_enclava_go.Source.Types.{Object, ObjectVersion, SourceRestriction, Principal, ReadOptions}
use mini_enclava_go.Source.Types as Source
use mini_enclava_go.Source.Authorizer.{merge_restriction, merge_all, no_restriction}
use mini_enclava_go.Inference.Payload.{Error, denied, Result}

-- The caller, its tenant beside the rest of `auth.Principal`.
pub record Actor : Type 0 where
  pub tenant_id : String
  pub principal : Principal

pub record ObjectRef : Type 0 where
  pub tenant_id : String
  pub object_id : String
  pub observed_seq : ℤ

pub record ArtifactRef : Type 0 where
  pub tenant_id : String
  pub id : String
  pub kind : String
  pub version : ℤ
  pub sha256 : String
  pub byte_size : ℤ

pub record ArtifactRow : Type 0 where
  pub tenant_id : String
  pub kind : String
  pub version : ℤ
  pub sha256 : String
  pub byte_size : ℤ
  pub state : String
  pub tombstone_reason : String

pub record Conversation : Type 0 where
  pub tenant_id : String
  pub owner_actor_id : String

pub record Inputs : Type 0 where
  pub inputs : List ObjectRef
  pub artifacts : List ArtifactRef
  pub conversations : List String
  pub restriction : Option SourceRestriction

pub record SourceStore : Type 0 where
  pub get_object : String → String → Source.Result Object
  pub get_object_version : String → String → ℕ → Source.Result ObjectVersion
  pub latest_object_version : String → String → Source.Result ObjectVersion
  pub restrictions_for_subject : String → String → String → Source.Result (List SourceRestriction)

pub record ObjectAuthorizer : Type 0 where
  pub can_read : Principal → Object → ReadOptions → Source.Result (Unit {0})
  pub effective_restrictions :
      Object → Option ObjectVersion → String → Source.Result SourceRestriction

abbrev pub ArtifactStore : Type 0
ArtifactStore = String → String → Source.Result ArtifactRow

abbrev pub ConversationStore : Type 0
ConversationStore = String → String → Source.Result Conversation

-- Any error is the one denial.
abbrev pub or_refuse : {A : Type 0} → Source.Result A → Result A
or_refuse (ok a) = ok a
or_refuse (err e) = err denied

abbrev pub or_unset : {A : Type 0} → Option A → Result A
or_unset (some a) = ok a
or_unset none = err denied

-- A loop that returns at the first error.
unfoldable pub for_each :
    {A : Type 0}
    → (A → SourceRestriction → Result SourceRestriction)
    → List A
    → SourceRestriction
    → Result SourceRestriction
for_each step [] effective = ok effective
for_each step (x ∷ xs) effective = step x effective >>= λ next. for_each step xs next

abbrev pub same_int : ℤ → ℤ → Bool
same_int a b = not (ltb_ℤ a b) && not (ltb_ℤ b a)

-- What the caller says of an artifact, where it says it.
abbrev pub is_claimed : (String → String → Bool) → ArtifactRef → ArtifactRow → Bool
is_claimed equal_fold ref row =
    (str_eq ref.kind "" || str_eq row.kind ref.kind)
    && ((same_int ref.version (pos 0) || same_int row.version ref.version)
        && ((str_eq ref.sha256 "" || equal_fold row.sha256 ref.sha256)
            && (same_int ref.byte_size (pos 0) || same_int row.byte_size ref.byte_size)))

abbrev pub is_owned_by : Principal → Conversation → Bool
is_owned_by p conv =
    str_eq conv.owner_actor_id p.actor_id
    || (not (str_eq p.delegated_by_actor_id "")
        && str_eq conv.owner_actor_id p.delegated_by_actor_id)

abbrev pub merge_request : SourceRestriction → Option SourceRestriction → SourceRestriction
merge_request effective none = effective
merge_request effective (some r) = merge_restriction effective r

module _ (store : SourceStore) (authorizer : ObjectAuthorizer) (artifacts : Option ArtifactStore)
    (conversations : Option ConversationStore) (equal_fold : String → String → Bool) where
  abbrev pub version_of : String → String → ℤ → Source.Result ObjectVersion
  version_of tenant id seq =
      if ltb_ℤ (pos 0) seq
      then store.get_object_version tenant id (pos_part seq)
      else store.latest_object_version tenant id

  abbrev pub read_options : Option SourceRestriction → ReadOptions
  read_options narrowing = record { now = none; requested_restriction = narrowing }

  -- The body of the loop over the inputs.
  unfoldable pub resolve_input :
      Actor → Option SourceRestriction → ObjectRef → SourceRestriction → Result SourceRestriction
  resolve_input p narrowing ref effective = do
    require (str_eq ref.tenant_id "" || str_eq ref.tenant_id p.tenant_id) denied
    obj ← or_refuse (store.get_object p.tenant_id ref.object_id)
    require (str_eq obj.tenant_id p.tenant_id) denied
    ver ← or_refuse (version_of p.tenant_id obj.id ref.observed_seq)
    require (str_eq ver.object_id obj.id) denied
    or_refuse (authorizer.can_read p.principal obj (read_options narrowing))
    restr ← or_refuse (authorizer.effective_restrictions obj (some ver) "")
    ok (merge_restriction effective restr)

  -- The body of the loop over the artifacts.
  unfoldable pub resolve_artifact :
      Actor → ArtifactRef → SourceRestriction → Result SourceRestriction
  resolve_artifact p ref effective = do
    get ← or_unset artifacts
    require
        (not (str_eq ref.id "") && (str_eq ref.tenant_id "" || str_eq ref.tenant_id p.tenant_id))
        denied
    row ← or_refuse (get p.tenant_id ref.id)
    require (str_eq row.tenant_id p.tenant_id) denied
    require
        (str_eq row.state "final"
          && (str_eq row.tombstone_reason "" && is_claimed equal_fold ref row))
        denied
    rows ← or_refuse (store.restrictions_for_subject p.tenant_id "artifact" ref.id)
    ok (merge_all effective rows)

  -- The body of the loop over the conversations.
  unfoldable pub resolve_conversation :
      Actor → String → SourceRestriction → Result SourceRestriction
  resolve_conversation p id effective = do
    require (not (str_eq id "")) denied
    get ← or_unset conversations
    conv ← or_refuse (get p.tenant_id id)
    require (str_eq conv.tenant_id p.tenant_id) denied
    require (is_owned_by p.principal conv) denied
    rows ← or_refuse (store.restrictions_for_subject p.tenant_id "conversation" id)
    ok (merge_all effective rows)

  unfoldable pub resolve_inputs : Actor → Inputs → Result SourceRestriction
  resolve_inputs p req = do
    rows ← or_refuse (store.restrictions_for_subject p.tenant_id "tenant" p.tenant_id)
    first ← for_each (resolve_input p req.restriction) req.inputs (merge_all no_restriction rows)
    second ← for_each (resolve_artifact p) req.artifacts first
    third ← for_each (resolve_conversation p) req.conversations second
    ok (merge_request third req.restriction)
