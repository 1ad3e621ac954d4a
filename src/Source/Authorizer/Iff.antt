-- ===== src/Source/Authorizer/Iff.antt =====
-- What `CanRead` of internal/source/authorize.go lets through, in both directions.
use mini_enclava_go.Common.{
  ℕ, ◌≡◌, ◌≢◌, refl, ◌↔◌, ◌⊎◌, inl, inr, true, not, ◌&&◌, ◌||◌, str_eq, eq_iff, Option, none, ok,
  arith, Bool-cases,
}
use mini_enclava_go.Source.Types.{
  AuthorizationMode, Object, Principal, ReadOptions, SourceRepository,
}
use mini_enclava_go.Source.Authorizer.{
  can_read, decide_mode, can_read_source_acl, check_narrowing, is_some, is_active,
}
use mini_enclava_go.Source.Authorizer.Grants.{read_grants_iff}
use mini_enclava_go.Source.Authorizer.Read.{AclPermits, ModePermits, can_read-permits}

module _ (repo : SourceRepository) (max_stale clock : ℕ) (p : Principal) (obj : Object)
    (opts : ReadOptions) where
  AclPermits-acl :
      AclPermits repo max_stale clock p obj opts
      → can_read_source_acl repo max_stale clock p obj opts ≡ ok tt
  unfolding can_read_source_acl
  AclPermits-acl a =
      let permits = (read_grants_iff a.ident a.groups a.grants).1 (a.none_denies, a.one_allows) in
      rw (can_read_source_acl, a.connected, a.ident_of, a.groups_of, a.latest, a.fresh, a.grants_of)
        permits

  owner_lem :
      (obj.owner_actor_id ≡ p.actor_id)
        ⊎ ((p.delegated_by_actor_id ≢ "") × (obj.owner_actor_id ≡ p.delegated_by_actor_id))
      → (str_eq obj.owner_actor_id p.actor_id
          || (not (str_eq p.delegated_by_actor_id "")
              && str_eq obj.owner_actor_id p.delegated_by_actor_id))
        ≡ true
  owner_lem (inl same) = ground (arith, eq_iff obj.owner_actor_id p.actor_id)
  owner_lem (inr (some_one, same)) = elim (Bool-cases (str_eq p.delegated_by_actor_id "")) [
    | inl nobody ↦ absurd (some_one (ground (arith, eq_iff p.delegated_by_actor_id "")))
    | inr delegated ↦ ground (arith, eq_iff obj.owner_actor_id p.delegated_by_actor_id)
  ]

  ModePermits-decide_mode :
      (mode : AuthorizationMode)
      → ModePermits repo max_stale clock p obj opts mode
      → decide_mode repo mode max_stale clock p obj opts ≡ ok tt
  unfolding decide_mode
  ModePermits-decide_mode AuthorizationMode.owner h = rw (owner_lem h) refl
  ModePermits-decide_mode AuthorizationMode.audience h = rw h refl
  ModePermits-decide_mode AuthorizationMode.published_audience h = rw h refl
  ModePermits-decide_mode AuthorizationMode.source_acl h = AclPermits-acl h
  ModePermits-decide_mode AuthorizationMode.other h = absurd h

  active_lem :
      (obj.connection_id ≡ "") ⊎ (repo.get_connection obj.tenant_id obj.connection_id ≡ ok "active")
      → (str_eq obj.connection_id ""
          || is_active repo (repo.get_connection obj.tenant_id obj.connection_id))
        ≡ true
  active_lem (inl upload) = ground (arith, eq_iff obj.connection_id "")
  active_lem (inr e) = rw e (ground arith)

  none_lem : (a b : Option ℕ) → a ≡ none → b ≡ none → not (is_some a || is_some b) ≡ true
  none_lem a b e d = rw (e, d) refl

  -- A read is let through exactly when: the object is neither deleted nor tombstoned; it is an upload
  -- or its connection is active; the request's narrowing is let through; and the object's mode permits
  -- the reader, as the owner or a delegate of the owner, as one of the audience, or by grants of the
  -- newest complete and fresh snapshot, none of which that is about the reader denies and one of which
  -- allows.
  pub can_read_iff : can_read repo max_stale clock p obj opts ≡ ok tt ↔ (
      (obj.deleted_at ≡ none)
      × (obj.tombstoned_at ≡ none)
      × ((obj.connection_id ≡ "")
          ⊎ (repo.get_connection obj.tenant_id obj.connection_id ≡ ok "active"))
      × (check_narrowing repo obj opts.requested_restriction ≡ ok tt)
      × ModePermits repo max_stale clock p obj opts obj.authorization_mode)
  unfolding can_read
  can_read_iff = (
    can_read-permits repo max_stale clock p obj opts,
    λ h.
        let (alive, standing, linked, narrow, permits) = h in
        let active = active_lem linked in
        let stands = none_lem obj.deleted_at obj.tombstoned_at alive standing in
        rw (can_read, stands, active, narrow)
          (ModePermits-decide_mode obj.authorization_mode permits),
  )
