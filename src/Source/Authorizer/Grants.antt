-- ===== src/Source/Authorizer/Grants.antt =====
-- The loop of `canReadSourceACL` in internal/source/authorize.go: a denial wins, in whatever order.
use mini_enclava_go.Common.{
  ◌≡◌, refl, ◌↔◌, ◌⊎◌, inl, inr, Bool, true, false, ◌&&◌, String, List, [], ◌∷◌, ok, Each, arith,
  Bool-cases,
}
use mini_enclava_go.Source.Types.{SourceGrant}
use mini_enclava_go.Source.Authorizer.{read_grants, applies, is_deny, is_allow}

abbrev pub Some : (SourceGrant → Type 0) → List SourceGrant → Type 0
Some P [] = ⊥
Some P (g ∷ grants) = P g ⊎ Some P grants

-- A grant about the reader that denies, or that allows.
abbrev pub denies : String → List String → SourceGrant → Bool
denies ident groups g = applies ident groups g && is_deny g.effect

abbrev pub allows : String → List String → SourceGrant → Bool
allows ident groups g = applies ident groups g && is_allow g.effect

abbrev pub Permits : String → List String → List SourceGrant → Bool → Type 0
Permits ident groups grants allowed =
    Each (λ g. denies ident groups g ≡ false) grants
    × ((allowed ≡ true) ⊎ Some (λ g. allows ident groups g ≡ true) grants)

module _ (ident : String) (groups : List String) where
  read_grants-Permits :
      (grants : List SourceGrant) (allowed : Bool)
      → read_grants ident groups grants allowed ≡ ok tt
      → Permits ident groups grants allowed
  unfolding read_grants
  read_grants-Permits [] allowed h = (tt, inl (ground arith))
  read_grants-Permits (g ∷ grants) allowed h = elim (Bool-cases (applies ident groups g)) [
    | inr other ↦
        let rest = read_grants-Permits grants allowed (ground (arith, other)) in
        ((ground arith, rest.0), elim rest.1 [ inl a ↦ inl a | inr s ↦ inr (inr s) ])
    | inl ours ↦ elim (Bool-cases (is_deny g.effect)) [
      | inl deny ↦ absurd (ground (arith, ours, deny))
      | inr kept ↦ elim (Bool-cases (is_allow g.effect)) [
        | inl allow ↦
            let rest = read_grants-Permits grants true (ground (arith, ours, kept, allow)) in
            ((ground arith, rest.0), inr (inl (ground arith)))
        | inr neither ↦
            let rest = read_grants-Permits grants allowed (ground (arith, ours, kept, neither)) in
            ((ground arith, rest.0), elim rest.1 [ inl a ↦ inl a | inr s ↦ inr (inr s) ])
      ]
    ]
  ]

  pass_on :
      (g : SourceGrant) (grants : List SourceGrant) (allowed : Bool)
      → allows ident groups g ≡ false
      → (allowed ≡ true) ⊎ Some (λ x. allows ident groups x ≡ true) (g ∷ grants)
      → (allowed ≡ true) ⊎ Some (λ x. allows ident groups x ≡ true) grants
  pass_on g grants allowed other (inl a) = inl a
  pass_on g grants allowed other (inr (inl e)) = cc (e, other)
  pass_on g grants allowed other (inr (inr s)) = inr s

  Permits-read_grants :
      (grants : List SourceGrant) (allowed : Bool)
      → Permits ident groups grants allowed
      → read_grants ident groups grants allowed ≡ ok tt
  unfolding read_grants
  Permits-read_grants [] allowed (_, inl a) = rw a refl
  Permits-read_grants [] allowed (_, inr s) = absurd s
  Permits-read_grants (g ∷ grants) allowed ((kept, rest), some_allows) =
      elim (Bool-cases (allows ident groups g)) [
        | inl allowing ↦
            let later = Permits-read_grants grants true (rest, inl refl) in ground (arith, later)
        | inr other ↦
            let later =
              Permits-read_grants grants allowed
                (rest, pass_on g grants allowed other some_allows) in
            ground (arith, later)
      ]

  -- The grants let a reader in exactly when none that is about the identity or its groups denies, and
  -- one allows.
  pub read_grants_iff :
      (grants : List SourceGrant)
      → read_grants ident groups grants false ≡ ok tt ↔ (
          Each (λ g. denies ident groups g ≡ false) grants
          × Some (λ g. allows ident groups g ≡ true) grants)
  read_grants_iff grants = (
    λ h. let p = read_grants-Permits grants false h in (p.0, elim p.1 [ inl e ↦ cc e | inr s ↦ s ]),
    λ h. Permits-read_grants grants false (h.0, inr h.1),
  )
