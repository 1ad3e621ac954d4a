-- ===== src/Inference/Routing/First.antt =====
-- `route` of internal/inference/policy.go takes the first eligible candidate.
use mini_enclava_go.Common.{
  ◌≡◌, ◌≢◌, refl, sym, ap, ◌∙◌, ◌⊎◌, inl, inr, ◌↔◌, Bool, true, false, not, ◌&&◌, String, str_eq,
  eq_iff, List, [], ◌∷◌, ◌++◌, none, some, ok, err, Each, Any, find_where, Bool-cases, Option-cases,
  arith,
}
use mini_enclava_go.Source.Authorizer.{contains, is_some}
use mini_enclava_go.Inference.Payload.{no_route}
use mini_enclava_go.Inference.Routing.Strings.{cut_prefix, cut}
use mini_enclava_go.Inference.Routing.{
  Allowlists, Endpoint, Request, EndpointStore, allowlist_allowed, bound_model, upstream_model_for,
  is_eligible, candidates, route,
}

abbrev pub Includes : String → List String → Type 0
Includes s items = Any (λ item. item ≡ s) items

-- An allowlist lets an id through.
abbrev pub IsAllowed : Bool → List String → String → Type 0
IsAllowed all items id = (all ≡ true) ⊎ (Includes "*" items ⊎ Includes id items)

-- A capability `model:alias=upstream` with some upstream model, or `model:alias`.
abbrev pub Binds : String → String → Type 0
Binds alias capability =
    (binding : String) × (cut_prefix "model:" capability ≡ some binding)
    × (((upstream : String) × (cut b'=' binding ≡ some (alias, upstream)) × (upstream ≢ ""))
        ⊎ ((cut b'=' binding ≡ none) × (binding ≡ alias)))

-- An endpoint that is enabled, advertises the capability, is allowed to the caller, and binds the
-- model, which the caller may use.
pub record IsEligible (a : Allowlists) (model capability : String) (e : Endpoint) : Type 0 where
  pub enabled : e.enabled ≡ true
  pub advertised : Includes capability e.capabilities
  pub allowed : IsAllowed a.all_endpoints a.endpoints e.id
  pub permitted : IsAllowed a.all_models a.models model
  pub bound : Any (Binds model) e.capabilities

contains_iff : (items : List String) (s : String) → (contains items s ≡ true) ↔ Includes s items
unfolding contains
contains_iff [] s = (λ h. cc h, λ h. absurd h)
contains_iff (item ∷ rest) s = elim (Bool-cases (str_eq item s)) [
  | inl same ↦ (λ _. inl (ground (arith, same, eq_iff item s)), λ _. rw same refl)
  | inr other ↦ (
    λ h. inr ((contains_iff rest s).0 (ground (arith, other, h))),
    λ h. elim h [
      | inl same ↦ ground (arith, other, same, eq_iff item s)
      | inr later ↦ let found = (contains_iff rest s).1 later in ground (arith, found)
    ],
  )
]

allowlist_allowed_iff :
    (all : Bool) (items : List String) (id : String)
    → (allowlist_allowed all items id ≡ true) ↔ IsAllowed all items id
allowlist_allowed_iff true items id = (λ _. inl refl, λ _. refl)
allowlist_allowed_iff false items id = elim (Bool-cases (contains items "*")) [
  | inl star ↦ (λ _. inr (inl ((contains_iff items "*").0 star)), λ _. rw star refl)
  | inr other ↦ (
    λ h. inr (inr ((contains_iff items id).0 (ground (arith, other, h)))),
    λ h. elim h [
      | inl all ↦ cc all
      | inr (inl star) ↦ cc (sym other ∙ (contains_iff items "*").1 star)
      | inr (inr found) ↦ rw other ((contains_iff items id).1 found)
    ],
  )
]

-- A capability binds the alias and ends the search, or it is passed over.
binding_cases :
    (alias c : String)
    → ((u : String) × ((cs : List String) → upstream_model_for (c ∷ cs) alias ≡ some u)
        × Binds alias c)
      ⊎ (((cs : List String) → upstream_model_for (c ∷ cs) alias ≡ upstream_model_for cs alias)
          × (¬ Binds alias c))
unfolding upstream_model_for bound_model cut_prefix
binding_cases alias c = elim (Option-cases (cut_prefix "model:" c)) [
  | inl missing ↦ inr (λ cs. rw missing refl, λ (b, e, _). cc (sym missing ∙ e))
  | inr (binding, prefixed) ↦ elim (Option-cases (cut b'=' binding)) [
    | inl whole ↦ elim (Bool-cases (str_eq binding alias)) [
      | inl same ↦ inl (
        alias,
        λ cs. rw (prefixed, whole, same) refl,
        (binding, prefixed, inr (whole, ground (arith, same, eq_iff binding alias))),
      )
      | inr other ↦ inr (
        λ cs. rw (prefixed, whole, other) refl,
        λ (b, e, how).
            let b_is : b ≡ binding = cc (sym e ∙ prefixed) in
            elim how [
              | inl (u, parts, _) ↦ cc (parts, whole, b_is)
              | inr (_, same) ↦
                  let binds : binding ≡ alias = cc (b_is, same) in
                  ground (arith, other, binds, eq_iff binding alias)
            ],
      )
    ]
    | inr ((before, upstream), parts) ↦
        elim (Bool-cases (str_eq before alias && not (str_eq upstream ""))) [
          | inl good ↦
              let same : before ≡ alias = ground (arith, good, eq_iff before alias) in
              let set : upstream ≢ "" = ground (arith, good, eq_iff upstream "") in
              inl (
                upstream,
                λ cs. rw (prefixed, parts, good) refl,
                (binding, prefixed, inl (upstream, rw (sym same) parts, set)),
              )
          | inr bad ↦ inr (
            λ cs. rw (prefixed, parts, bad) refl,
            λ (b, e, how).
                let b_is : b ≡ binding = cc (sym e ∙ prefixed) in
                elim how [
                  | inr (whole, _) ↦ cc (parts, whole, b_is)
                  | inl (u, parts', set) ↦
                      let both : (before ≡ alias) × (upstream ≡ u) =
                        (cc (parts, parts', b_is), cc (parts, parts', b_is)) in
                      let named : str_eq before alias ≡ true =
                        ground (arith, both.0, eq_iff before alias) in
                      let empty : upstream ≡ "" = ground (arith, named, bad, eq_iff upstream "") in
                      set (sym both.1 ∙ empty)
                ],
          )
        ]
  ]
]

upstream_model_for_iff :
    (capabilities : List String) (alias : String)
    → (is_some (upstream_model_for capabilities alias) ≡ true) ↔ Any (Binds alias) capabilities
upstream_model_for_iff [] alias = unfold upstream_model_for in (λ h. cc h, λ h. absurd h)
upstream_model_for_iff (c ∷ cs) alias = elim (binding_cases alias c) [
  | inl (u, found, binds) ↦ (λ _. inl binds, λ _. rw (found cs) refl)
  | inr (passed, never) ↦ (
    λ h. inr ((upstream_model_for_iff cs alias).0 (rw (sym (passed cs)) h)),
    λ h. elim h [
      | inl binds ↦ absurd (never binds)
      | inr later ↦ rw (passed cs) ((upstream_model_for_iff cs alias).1 later)
    ],
  )
]

both_true : {a b : Bool} → a && b ≡ true → (a ≡ true) × (b ≡ true)
both_true h = (ground (arith, h), ground (arith, h))

is_eligible_iff :
    (a : Allowlists) (model capability : String) (e : Endpoint)
    → (is_eligible a model capability e ≡ true) ↔ IsEligible a model capability e
is_eligible_iff a model capability e =
    let advertised = contains_iff e.capabilities capability in
    let allowed = allowlist_allowed_iff a.all_endpoints a.endpoints e.id in
    let permitted = allowlist_allowed_iff a.all_models a.models model in
    let bound = upstream_model_for_iff e.capabilities model in
    (
      λ h.
          let (h₁, h₂) = both_true h in
          let (h₃, h₄) = both_true h₂ in
          let (h₅, h₆) = both_true h₄ in
          let (h₇, h₈) = both_true h₆ in
          record {
            enabled = h₁;
            advertised = advertised.0 h₃;
            allowed = allowed.0 h₅;
            permitted = permitted.0 h₇;
            bound = bound.0 h₈;
          },
      λ x.
          rw
            (
              x.enabled,
              advertised.1 x.advertised,
              allowed.1 x.allowed,
              permitted.1 x.permitted,
              bound.1 x.bound,
            )
            refl,
    )

-- x is the first element of xs that P holds of.
pub record IsFirst {A : Type 0} (P : A → Type 0) (x : A) (xs : List A) : Type 0 where
  pub before : List A
  pub after : List A
  pub split : xs ≡ before ++ x ∷ after
  pub skipped : Each (λ y. ¬ P y) before
  pub satisfied : P x

module _ {A : Type 0} (p : A → Bool) (P : A → Type 0) (decides : (x : A) → (p x ≡ true) ↔ P x) where
  not_P : (x : A) → p x ≡ false → ¬ P x
  not_P x fails holds = cc (sym fails ∙ (decides x).1 holds)

  find_where-IsFirst :
      (xs : List A)
      → ((x : A) × (find_where p xs ≡ some x) × IsFirst P x xs)
        ⊎ ((find_where p xs ≡ none) × Each (λ y. ¬ P y) xs)
  unfolding find_where
  find_where-IsFirst [] = inr (refl, tt)
  find_where-IsFirst (x ∷ xs) = elim (Bool-cases (p x)) [
    | inl holds ↦ inl (
      x,
      rw holds refl,
      record {
        before = [];
        after = xs;
        split = refl;
        skipped = tt;
        satisfied = (decides x).0 holds;
      },
    )
    | inr fails ↦ elim (find_where-IsFirst xs) [
      | inl (y, found, first) ↦ inl (
        y,
        rw fails found,
        record {
          before = x ∷ first.before;
          after = first.after;
          split = ap (λ ys. x ∷ ys) first.split;
          skipped = (not_P x fails, first.skipped);
          satisfied = first.satisfied;
        },
      )
      | inr (nothing, all) ↦ inr (rw fails nothing, (not_P x fails, all))
    ]
  ]

-- Of the candidates, `route` returns the first that is enabled, advertises the capability, is on the
-- caller's allowlist of endpoints, and has a binding of the model, which is on the caller's allowlist of
-- models; all those before it lack one of these. If there is none it returns `ErrNoRoute`.
pub route-IsFirst :
    (endpoints : EndpointStore) (tenant : String) (a : Allowlists) (req : Request)
    (capability : String) (found : List Endpoint)
    → candidates endpoints tenant req capability ≡ ok found
    → ((e : Endpoint) × (route endpoints tenant a req capability ≡ ok e)
        × IsFirst (IsEligible a req.model capability) e found)
      ⊎ ((route endpoints tenant a req capability ≡ err no_route)
          × Each (λ e. ¬ IsEligible a req.model capability e) found)
unfolding route
route-IsFirst endpoints tenant a req capability found listed =
    elim (find_where-IsFirst (is_eligible a req.model capability)
      (IsEligible a req.model capability) (is_eligible_iff a req.model capability) found) [
        | inl (e, chosen, first) ↦ inl (e, rw (listed, chosen) refl, first)
        | inr (nothing, all) ↦ inr (rw (listed, nothing) refl, all)
      ]
