-- ===== src/Examples/Source.antt =====
-- internal/source at concrete inputs: a connector object that a group may read.
use mini_enclava_go.Common.{
  ◌≡◌, refl, ◌↔◌, ◌⊎◌, inl, inr, true, false, List, [], ◌∷◌, none, some, ok, err, Each,
}
use mini_enclava_go.Source.Types.{
  Object, SourceGrant, SourceRestriction, SourceRepository, Principal, ReadOptions, source_acl,
  user, group, allow, deny, Result, RestrictionSubject, object, storage,
}
use mini_enclava_go.Source.Authorizer.{
  read_grants, can_read, check_narrowing, decide_mode, can_read_source_acl, contains,
  effective_restrictions, merge_subjects, subjects_of, merge_all, merge_restriction, add_new,
  assurance_rank, retains,
}
use mini_enclava_go.Source.Authorizer.Grants.{denies, allows, Some, read_grants_iff}
use mini_enclava_go.Source.Authorizer.Restrictions.{Keeps, check_narrowing-Keeps}
use mini_enclava_go.Source.Authorizer.Read.{ModePermits}
use mini_enclava_go.Source.Authorizer.Iff.{can_read_iff}

abbrev group_grant : SourceGrant
group_grant = record { subject_kind = group; subject_id = "g1"; effect = allow }

abbrev other_grant : SourceGrant
other_grant = record { subject_kind = user; subject_id = "i2"; effect = deny }

abbrev two_grants : List SourceGrant
two_grants = group_grant ∷ other_grant ∷ []

read_grants_iff_example : read_grants "i1" ("g1" ∷ []) two_grants false ≡ ok tt ↔ (
    Each (λ g. denies "i1" ("g1" ∷ []) g ≡ false) two_grants
    × Some (λ g. allows "i1" ("g1" ∷ []) g ≡ true) two_grants)
read_grants_iff_example = read_grants_iff "i1" ("g1" ∷ []) two_grants

abbrev no_export : SourceRestriction
no_export = record {
  required_assurance = "standard";
  denied_capabilities = "export" ∷ [];
  policy_labels = [];
}

abbrev stricter : SourceRestriction
stricter = record {
  required_assurance = "high";
  denied_capabilities = "share" ∷ "export" ∷ [];
  policy_labels = [];
}

abbrev restrictions : RestrictionSubject → Result (List SourceRestriction)
restrictions RestrictionSubject.object = ok (no_export ∷ [])
restrictions _ = ok []

abbrev repository : SourceRepository
repository = record {
  get_connection = λ tenant id. ok "active";
  source_identity_for_user = λ tenant id user. ok "i1";
  group_ids_for_identity = λ tenant id ident. ok ("g1" ∷ []);
  latest_complete_revision = λ tenant id. ok (7, 1000);
  grants_for_object = λ tenant id revision. ok two_grants;
  restrictions_for_subject = λ tenant kind id. restrictions kind;
  get_object_version = λ tenant id seq. err storage;
}

abbrev page : Object
page = record {
  tenant_id = "t1";
  connection_id = "c1";
  id = "o1";
  authorization_mode = source_acl;
  owner_actor_id = "";
  audience = [];
  deleted_at = none;
  tombstoned_at = none;
}

abbrev reader : Principal
reader = record { actor_id = "a1"; user_id = "u1"; delegated_by_actor_id = "" }

abbrev options : ReadOptions
options = record { now = some 1010; requested_restriction = some stricter }

check_narrowing-Keeps_example : Each (λ r. Keeps r stricter) (no_export ∷ [])
unfolding check_narrowing effective_restrictions merge_subjects subjects_of merge_all
    merge_restriction add_new assurance_rank retains contains
check_narrowing-Keeps_example =
    check_narrowing-Keeps repository page stricter object "o1" (no_export ∷ []) refl
      (inr (inl refl)) refl

can_read_iff_example : can_read repository 60 0 reader page options ≡ ok tt ↔ (
    (page.deleted_at ≡ none)
    × (page.tombstoned_at ≡ none)
    × ((page.connection_id ≡ "") ⊎ (repository.get_connection "t1" "c1" ≡ ok "active"))
    × (check_narrowing repository page (some stricter) ≡ ok tt)
    × ModePermits repository 60 0 reader page options source_acl)
can_read_iff_example = can_read_iff repository 60 0 reader page options

-- The reader is let in through the group.
can_read_test : can_read repository 60 0 reader page options ≡ ok tt
unfolding can_read check_narrowing effective_restrictions merge_subjects subjects_of merge_all
    merge_restriction add_new assurance_rank retains contains decide_mode can_read_source_acl
    read_grants
can_read_test = refl
