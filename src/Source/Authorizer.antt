-- ===== src/Source/Authorizer.antt =====
-- internal/source/authorize.go. The clock is an argument, and an instant is a number.
pub mod Grants
pub mod Restrictions
pub mod Read
pub mod Iff
use mini_enclava_go.Common.{
  ℕ, ◌+◌, ◌-◌, Bool, true, false, not, ◌&&◌, ◌||◌, String, str_eq, List, [], ◌∷◌, ◌++◌, Option,
  none, some, ok, err, ◌>>=◌, ◌>>◌, require, ltb, leb, if◌then◌else◌,
}
use mini_enclava_go.Source.Types.{
  Error, denied, Result, AuthorizationMode, owner, audience, source_acl, published_audience, other,
  Object, SubjectKind, user, group, Effect, allow, deny, SourceGrant, SourceRestriction,
  ObjectVersion, Principal, ReadOptions, RestrictionSubject, connection, object, artifact,
  SourceRepository,
}

unfoldable pub contains : List String → String → Bool
contains [] v = false
contains (item ∷ rest) v = str_eq item v || contains rest v

abbrev pub is_some {ℓ} : {A : Type ℓ} → Option A → Bool
is_some none = false
is_some (some a) = true

-- Whether a grant is about the identity or one of its groups.
abbrev pub applies_to : String → List String → SubjectKind → String → Bool
applies_to ident groups SubjectKind.user subject = str_eq subject ident
applies_to ident groups SubjectKind.group subject = contains groups subject
applies_to ident groups SubjectKind.other subject = false

abbrev pub applies : String → List String → SourceGrant → Bool
applies ident groups g = applies_to ident groups g.subject_kind g.subject_id

abbrev pub is_deny : Effect → Bool
is_deny Effect.deny = true
is_deny _ = false

abbrev pub is_allow : Effect → Bool
is_allow Effect.allow = true
is_allow _ = false

-- The loop over the grants, with the flag that it has reached, and the test after it.
unfoldable pub read_grants : String → List String → List SourceGrant → Bool → Result (Unit {0})
read_grants ident groups [] allowed = require allowed denied
read_grants ident groups (g ∷ grants) allowed =
    let skip = read_grants ident groups grants allowed in
    let grant = read_grants ident groups grants true in
    if not (applies ident groups g)
    then skip
    else if is_deny g.effect
    then err denied
    else if is_allow g.effect
    then grant
    else skip

-- `unionStrings`: what b adds to the values seen.
unfoldable pub add_new : List String → List String → List String
add_new out [] = out
add_new out (v ∷ b) = add_new (if contains out v then out else out ++ v ∷ []) b

unfoldable pub assurance_rank : String → ℕ
assurance_rank level =
    if str_eq level ""
    then 0
    else if str_eq level "standard"
    then 1
    else if str_eq level "high"
    then 2
    else 3

unfoldable pub merge_restriction : SourceRestriction → SourceRestriction → SourceRestriction
merge_restriction dst r = record {
  required_assurance =
      if ltb (assurance_rank dst.required_assurance) (assurance_rank r.required_assurance)
      then r.required_assurance
      else dst.required_assurance;
  denied_capabilities = add_new dst.denied_capabilities r.denied_capabilities;
  policy_labels = add_new dst.policy_labels r.policy_labels;
}

unfoldable pub merge_all : SourceRestriction → List SourceRestriction → SourceRestriction
merge_all dst [] = dst
merge_all dst (r ∷ rows) = merge_all (merge_restriction dst r) rows

abbrev pub no_restriction : SourceRestriction
no_restriction = record { required_assurance = ""; denied_capabilities = []; policy_labels = [] }

-- Every capability of the first list is among the second.
unfoldable pub retains : List String → List String → Bool
retains [] requested = true
retains (c ∷ persisted) requested = contains requested c && retains persisted requested

-- An error of any query but the restrictions' is a denial.
abbrev pub or_denied : {A : Type 0} → Result A → Result A
or_denied (ok a) = ok a
or_denied (err e) = err denied

module _ (repo : SourceRepository) where
  -- The subjects of `EffectiveRestrictions`.
  unfoldable pub subjects_of : Object → String → List (RestrictionSubject × String)
  subjects_of obj artifact_id =
      (if str_eq obj.connection_id "" then [] else (connection, obj.connection_id) ∷ [])
      ++ (object, obj.id) ∷ (if str_eq artifact_id "" then [] else (artifact, artifact_id) ∷ [])

  unfoldable pub merge_subjects :
      String → List (RestrictionSubject × String) → SourceRestriction → Result SourceRestriction
  merge_subjects tenant [] merged = ok merged
  merge_subjects tenant ((kind, id) ∷ subjects) merged =
      repo.restrictions_for_subject tenant kind id >>= λ rows.
      merge_subjects tenant subjects (merge_all merged rows)

  abbrev pub version_restrictions : Option ObjectVersion → List SourceRestriction
  version_restrictions none = []
  version_restrictions (some ver) = ver.restrictions

  unfoldable pub effective_restrictions :
      Object → Option ObjectVersion → String → Result SourceRestriction
  effective_restrictions obj ver artifact_id = do
    merged ← merge_subjects obj.tenant_id (subjects_of obj artifact_id) no_restriction
    ok (merge_all merged (version_restrictions ver))

  unfoldable pub check_narrowing : Object → Option SourceRestriction → Result (Unit {0})
  check_narrowing obj none = ok tt
  check_narrowing obj (some requested) = do
    persisted ← effective_restrictions obj none ""
    require (retains persisted.denied_capabilities requested.denied_capabilities) denied
    require
        (leb (assurance_rank persisted.required_assurance)
          (assurance_rank requested.required_assurance))
        denied

  -- `MaxStale` of zero is no bound.
  abbrev pub is_stale : ℕ → ℕ → ℕ → Bool
  is_stale max_stale now completed_at = ltb 0 max_stale && ltb max_stale (now - completed_at)

  abbrev pub now_or : ℕ → Option ℕ → ℕ
  now_or clock none = clock
  now_or clock (some now) = now

  abbrev pub mapped_user : Principal → String
  mapped_user p = if str_eq p.user_id "" then p.actor_id else p.user_id

  unfoldable pub can_read_source_acl : ℕ → ℕ → Principal → Object → ReadOptions → Result (Unit {0})
  can_read_source_acl max_stale clock p obj opts = do
    require (not (str_eq obj.connection_id "")) denied
    ident ←
        or_denied (repo.source_identity_for_user obj.tenant_id obj.connection_id (mapped_user p))
    groups ← or_denied (repo.group_ids_for_identity obj.tenant_id obj.connection_id ident)
    latest ← or_denied (repo.latest_complete_revision obj.tenant_id obj.connection_id)
    require (not (is_stale max_stale (now_or clock opts.now) latest.1)) denied
    grants ← or_denied (repo.grants_for_object obj.tenant_id obj.id latest.0)
    read_grants ident groups grants false

  abbrev pub is_active : Result String → Bool
  is_active (ok status) = str_eq status "active"
  is_active (err e) = false

  -- The `switch` on the mode.
  unfoldable pub decide_mode :
      AuthorizationMode → ℕ → ℕ → Principal → Object → ReadOptions → Result (Unit {0})
  decide_mode AuthorizationMode.owner max_stale clock p obj opts =
      require
        (str_eq obj.owner_actor_id p.actor_id
          || (not (str_eq p.delegated_by_actor_id "")
              && str_eq obj.owner_actor_id p.delegated_by_actor_id))
        denied
  decide_mode AuthorizationMode.audience max_stale clock p obj opts =
      require (contains obj.audience p.actor_id) denied
  decide_mode AuthorizationMode.published_audience max_stale clock p obj opts =
      require (contains obj.audience p.actor_id) denied
  decide_mode AuthorizationMode.source_acl max_stale clock p obj opts =
      can_read_source_acl max_stale clock p obj opts
  decide_mode AuthorizationMode.other max_stale clock p obj opts = err denied

  unfoldable pub can_read : ℕ → ℕ → Principal → Object → ReadOptions → Result (Unit {0})
  can_read max_stale clock p obj opts = do
    require (not (is_some obj.deleted_at || is_some obj.tombstoned_at)) denied
    require
        (str_eq obj.connection_id ""
          || is_active (repo.get_connection obj.tenant_id obj.connection_id))
        denied
    check_narrowing obj opts.requested_restriction
    decide_mode obj.authorization_mode max_stale clock p obj opts

  unfoldable pub can_read_version :
      ℕ → ℕ → Principal → Object → ObjectVersion → ReadOptions → Result (Unit {0})
  can_read_version max_stale clock p obj ver opts = do
    require (str_eq ver.object_id obj.id) denied
    _ ← or_denied (repo.get_object_version obj.tenant_id obj.id ver.observed_seq)
    can_read max_stale clock p obj opts
