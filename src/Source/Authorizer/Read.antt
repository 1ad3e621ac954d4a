-- ===== src/Source/Authorizer/Read.antt =====
-- What follows when `CanRead` of internal/source/authorize.go returns no error.
use mini_enclava_go.Common.{
  ℕ, ◌≡◌, ◌≢◌, refl, ap, ◌⊎◌, inl, inr, true, false, not, ◌||◌, String, str_eq, eq_iff, List,
  Option, none, some, ok, err, require_ok, require_then, ok_of_bind, ok_of_then, Each, arith,
  Bool-cases,
}
use mini_enclava_go.Source.Types.{
  AuthorizationMode, Object, Principal, ReadOptions, SourceRepository, SourceGrant, Result, denied,
}
use mini_enclava_go.Source.Authorizer.{
  can_read, decide_mode, can_read_source_acl, check_narrowing, contains, is_some, is_active,
  is_stale, now_or, mapped_user, or_denied,
}
use mini_enclava_go.Source.Authorizer.Grants.{denies, allows, Some, read_grants_iff}

-- The reader's grants at the newest complete snapshot, which is not stale.
pub record AclPermits (repo : SourceRepository) (max_stale clock : ℕ) (p : Principal) (obj : Object)
    (opts : ReadOptions) : Type 0 where
  pub ident : String
  pub groups : List String
  pub revision : ℕ
  pub completed_at : ℕ
  pub grants : List SourceGrant
  pub connected : str_eq obj.connection_id "" ≡ false
  pub ident_of :
      repo.source_identity_for_user obj.tenant_id obj.connection_id (mapped_user repo p) ≡ ok ident
  pub groups_of : repo.group_ids_for_identity obj.tenant_id obj.connection_id ident ≡ ok groups
  pub latest :
      repo.latest_complete_revision obj.tenant_id obj.connection_id ≡ ok (revision, completed_at)
  pub fresh : is_stale repo max_stale (now_or repo clock opts.now) completed_at ≡ false
  pub grants_of : repo.grants_for_object obj.tenant_id obj.id revision ≡ ok grants
  pub none_denies : Each (λ g. denies ident groups g ≡ false) grants
  pub one_allows : Some (λ g. allows ident groups g ≡ true) grants

module _ (repo : SourceRepository) (max_stale clock : ℕ) (p : Principal) (obj : Object)
    (opts : ReadOptions) where
  abbrev pub ModePermits : AuthorizationMode → Type 0
  ModePermits AuthorizationMode.owner =
      (obj.owner_actor_id ≡ p.actor_id)
      ⊎ ((p.delegated_by_actor_id ≢ "") × (obj.owner_actor_id ≡ p.delegated_by_actor_id))
  ModePermits AuthorizationMode.audience = contains obj.audience p.actor_id ≡ true
  ModePermits AuthorizationMode.published_audience = contains obj.audience p.actor_id ≡ true
  ModePermits AuthorizationMode.source_acl = AclPermits repo max_stale clock p obj opts
  ModePermits AuthorizationMode.other = ⊥

  or_denied_ok : {A : Type 0} (r : Result A) {a : A} → or_denied r ≡ ok a → r ≡ ok a
  or_denied_ok (ok b) e = e
  or_denied_ok (err x) e = cc e

  acl-AclPermits :
      can_read_source_acl repo max_stale clock p obj opts ≡ ok tt
      → AclPermits repo max_stale clock p obj opts
  unfolding can_read_source_acl
  acl-AclPermits h =
      let (connected, h₁) = require_then denied (not (str_eq obj.connection_id "")) _ h in
      let (ident, i, h₂) =
        ok_of_bind
          (or_denied
            (repo.source_identity_for_user obj.tenant_id obj.connection_id (mapped_user repo p)))
          _ h₁ in
      let (groups, g, h₃) =
        ok_of_bind (or_denied (repo.group_ids_for_identity obj.tenant_id obj.connection_id ident)) _
          h₂ in
      let (latest, l, h₄) =
        ok_of_bind (or_denied (repo.latest_complete_revision obj.tenant_id obj.connection_id)) _
          h₃ in
      let (fresh, h₅) =
        require_then denied (not (is_stale repo max_stale (now_or repo clock opts.now) latest.1)) _
          h₄ in
      let (grants, gs, h₆) =
        ok_of_bind (or_denied (repo.grants_for_object obj.tenant_id obj.id latest.0)) _ h₅ in
      let permits = (read_grants_iff ident groups grants).0 h₆ in
      record {
        ident = ident;
        groups = groups;
        revision = latest.0;
        completed_at = latest.1;
        grants = grants;
        connected = ground (arith, connected);
        ident_of = or_denied_ok _ i;
        groups_of = or_denied_ok _ g;
        latest = or_denied_ok _ l;
        fresh = ground (arith, fresh);
        grants_of = or_denied_ok _ gs;
        none_denies = permits.0;
        one_allows = permits.1;
      }

  is_some-none : {A : Type 0} (o : Option A) → is_some o ≡ false → o ≡ none
  is_some-none none e = refl
  is_some-none (some a) e = cc e

  connection_lem :
      (r : Result String)
      → (str_eq obj.connection_id "" || is_active repo r) ≡ true
      → (obj.connection_id ≡ "") ⊎ (r ≡ ok "active")
  connection_lem (err e) h = inl (ground (arith, eq_iff obj.connection_id ""))
  connection_lem (ok status) h = elim (Bool-cases (str_eq obj.connection_id "")) [
    | inl upload ↦ inl (ground (arith, eq_iff obj.connection_id ""))
    | inr other ↦
        let e : status ≡ "active" = ground (arith, eq_iff status "active") in inr (ap ok e)
  ]

  decide_mode-ModePermits :
      (mode : AuthorizationMode)
      → decide_mode repo mode max_stale clock p obj opts ≡ ok tt
      → ModePermits mode
  unfolding decide_mode
  decide_mode-ModePermits AuthorizationMode.owner h =
      let owns = require_ok denied _ h in
      elim (Bool-cases (str_eq obj.owner_actor_id p.actor_id)) [
        | inl same ↦ inl (ground (arith, eq_iff obj.owner_actor_id p.actor_id))
        | inr other ↦ inr (
          λ e. ground (arith, eq_iff p.delegated_by_actor_id ""),
          ground (arith, eq_iff obj.owner_actor_id p.delegated_by_actor_id),
        )
      ]
  decide_mode-ModePermits AuthorizationMode.audience h = require_ok denied _ h
  decide_mode-ModePermits AuthorizationMode.published_audience h = require_ok denied _ h
  decide_mode-ModePermits AuthorizationMode.source_acl h = acl-AclPermits h
  decide_mode-ModePermits AuthorizationMode.other h = cc h

  -- The one direction.
  pub can_read-permits :
      can_read repo max_stale clock p obj opts ≡ ok tt
      → (obj.deleted_at ≡ none)
        × (obj.tombstoned_at ≡ none)
        × ((obj.connection_id ≡ "")
            ⊎ (repo.get_connection obj.tenant_id obj.connection_id ≡ ok "active"))
        × (check_narrowing repo obj opts.requested_restriction ≡ ok tt)
        × ModePermits obj.authorization_mode
  unfolding can_read
  can_read-permits h =
      let (alive, h₁) =
        require_then denied (not (is_some obj.deleted_at || is_some obj.tombstoned_at)) _ h in
      let (active, h₂) = require_then denied _ _ h₁ in
      let (narrow, h₃) = ok_of_then _ _ h₂ in
      (
        is_some-none obj.deleted_at (ground (arith, alive)),
        is_some-none obj.tombstoned_at (ground (arith, alive)),
        connection_lem (repo.get_connection obj.tenant_id obj.connection_id) active,
        narrow,
        decide_mode-ModePermits obj.authorization_mode h₃,
      )
