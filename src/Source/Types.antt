-- ===== src/Source/Types.antt =====
-- The rows of internal/source/types.go that a decision reads, and `SourceRepository` of
-- internal/source/repository.go as the record of the queries that a decision makes.
use mini_enclava_go.Common.{ℕ, String, List, Option, Outcome}

-- `ErrDenied`, and an error of the storage that is passed on.
pub data Error : Type 0 where
  denied storage : Error

abbrev pub Result : Type 0 → Type 0
Result A = Outcome Error A

pub data AuthorizationMode : Type 0 where
  owner audience source_acl published_audience other : AuthorizationMode

pub record Object : Type 0 where
  pub tenant_id : String
  pub connection_id : String
  pub id : String
  pub authorization_mode : AuthorizationMode
  pub owner_actor_id : String
  pub audience : List String
  pub deleted_at : Option ℕ
  pub tombstoned_at : Option ℕ

pub data SubjectKind : Type 0 where
  user group other : SubjectKind

pub data Effect : Type 0 where
  allow deny other : Effect

pub record SourceGrant : Type 0 where
  pub subject_kind : SubjectKind
  pub subject_id : String
  pub effect : Effect

pub record SourceRestriction : Type 0 where
  pub required_assurance : String
  pub denied_capabilities : List String
  pub policy_labels : List String

pub record ObjectVersion : Type 0 where
  pub object_id : String
  pub observed_seq : ℕ
  pub restrictions : List SourceRestriction

-- `auth.Principal`, as far as a decision reads it.
pub record Principal : Type 0 where
  pub actor_id : String
  pub user_id : String
  pub delegated_by_actor_id : String

-- `none` leaves the clock or asks for no narrowing.
pub record ReadOptions : Type 0 where
  pub now : Option ℕ
  pub requested_restriction : Option SourceRestriction

pub data RestrictionSubject : Type 0 where
  connection object artifact : RestrictionSubject

-- The status of a connection; the id of an identity; the groups; the revision and its completion.
pub record SourceRepository : Type 0 where
  pub get_connection : String → String → Result String
  pub source_identity_for_user : String → String → String → Result String
  pub group_ids_for_identity : String → String → String → Result (List String)
  pub latest_complete_revision : String → String → Result (ℕ × ℕ)
  pub grants_for_object : String → String → ℕ → Result (List SourceGrant)
  pub restrictions_for_subject :
      String → RestrictionSubject → String → Result (List SourceRestriction)
  pub get_object_version : String → String → ℕ → Result ObjectVersion
