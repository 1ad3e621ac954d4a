-- ===== src/Source/Authorizer/Restrictions.antt =====
-- `EffectiveRestrictions` and `checkNarrowing` of internal/source/authorize.go: what is persisted is kept.
use mini_enclava_go.Common.{
  ◌≤◌, ◌≡◌, refl, sym, ap, ◌∙◌, ◌⊎◌, inl, inr, true, ◌||◌, String, str_eq, eq_iff, List, [], ◌∷◌,
  ◌++◌, none, some, ok, require_ok, require_then, ok_of_bind, Each, arith, Bool-cases, leb→le,
  if◌then◌else◌,
}
use mini_enclava_go.Source.Types.{
  SourceRestriction, SourceRepository, Object, RestrictionSubject, denied,
}
use mini_enclava_go.Source.Authorizer.{
  contains, add_new, assurance_rank, merge_restriction, merge_all, no_restriction, retains,
  merge_subjects, subjects_of, effective_restrictions, check_narrowing,
}

-- s is at least as strict as r.
abbrev pub Keeps : SourceRestriction → SourceRestriction → Type 0
Keeps r s =
    (assurance_rank r.required_assurance ≤ assurance_rank s.required_assurance)
    × ((c : String)
        → contains r.denied_capabilities c ≡ true
        → contains s.denied_capabilities c ≡ true)

pub Keeps-refl : (r : SourceRestriction) → Keeps r r
Keeps-refl r = (omega arith, λ c h. h)

pub Keeps-trans : (r s t : SourceRestriction) → Keeps r s → Keeps s t → Keeps r t
Keeps-trans r s t p q = (omega (arith, p.0, q.0), λ c h. q.1 c (p.1 c h))

contains-append :
    (out : List String) (v c : String) → contains (out ++ v ∷ []) c ≡ contains out c || str_eq v c
unfolding contains
contains-append [] v c = ground arith
contains-append (x ∷ out) v c = let h = contains-append out v c in rw h (ground arith)

add_new-out :
    (out b : List String) (c : String) → contains out c ≡ true → contains (add_new out b) c ≡ true
unfolding add_new
add_new-out out [] c h = h
add_new-out out (v ∷ b) c h = elim (Bool-cases (contains out v)) [
  | inl seen ↦ rw seen (add_new-out out b c h)
  | inr fresh ↦ rw fresh (add_new-out (out ++ v ∷ []) b c (contains-append out v c ∙ rw h refl))
]

add_new-new :
    (out b : List String) (c : String) → contains b c ≡ true → contains (add_new out b) c ≡ true
unfolding add_new contains
add_new-new out [] c h = cc h
add_new-new out (v ∷ b) c h = elim (Bool-cases (str_eq v c)) [
  | inl same ↦
      let e : v ≡ c = ground (arith, eq_iff v c) in
      elim (Bool-cases (contains out v)) [
        | inl seen ↦ rw seen (add_new-out out b c (sym (ap (λ x. contains out x) e) ∙ seen))
        | inr fresh ↦ rw fresh (
            add_new-out (out ++ v ∷ []) b c
              (let a = contains-append out v c in ground (arith, a, same)))
      ]
  | inr other ↦ add_new-new (if contains out v then out else out ++ v ∷ []) b c (ground arith)
]

pub merge_restriction-Keeps :
    (dst r : SourceRestriction)
    → Keeps dst (merge_restriction dst r) × Keeps r (merge_restriction dst r)
unfolding merge_restriction
merge_restriction-Keeps dst r = (
  (ground arith, λ c h. add_new-out dst.denied_capabilities r.denied_capabilities c h),
  (ground arith, λ c h. add_new-new dst.denied_capabilities r.denied_capabilities c h),
)

pub merge_all-Keeps :
    (dst : SourceRestriction) (rows : List SourceRestriction)
    → Keeps dst (merge_all dst rows) × Each (λ r. Keeps r (merge_all dst rows)) rows
unfolding merge_all
merge_all-Keeps dst [] = (Keeps-refl dst, tt)
merge_all-Keeps dst (r ∷ rows) =
    let (first, rest) = merge_all-Keeps (merge_restriction dst r) rows in
    let (old, new) = merge_restriction-Keeps dst r in
    let all = merge_all (merge_restriction dst r) rows in
    (
      Keeps-trans dst (merge_restriction dst r) all old first,
      (Keeps-trans r (merge_restriction dst r) all new first, rest),
    )

retains-contains :
    (persisted requested : List String) (c : String)
    → retains persisted requested ≡ true
    → contains persisted c ≡ true
    → contains requested c ≡ true
unfolding retains contains
retains-contains [] requested c h k = cc k
retains-contains (p ∷ persisted) requested c h k = elim (Bool-cases (str_eq p c)) [
  | inl same ↦ let e : p ≡ c = ground (arith, eq_iff p c) in rw (sym e) (ground arith)
  | inr other ↦ retains-contains persisted requested c (ground arith) (ground arith)
]

pub Each-Keeps :
    (rows : List SourceRestriction) (s t : SourceRestriction)
    → Each (λ r. Keeps r s) rows
    → Keeps s t
    → Each (λ r. Keeps r t) rows
Each-Keeps [] s t h k = tt
Each-Keeps (r ∷ rows) s t (h, rest) k = (Keeps-trans r s t h k, Each-Keeps rows s t rest k)

module _ (repo : SourceRepository) where
  abbrev pub Listed : RestrictionSubject × String → List (RestrictionSubject × String) → Type 0
  Listed x [] = ⊥
  Listed x (y ∷ ys) = (y ≡ x) ⊎ Listed x ys

  merge_subjects-Keeps :
      (tenant : String) (subjects : List (RestrictionSubject × String))
      (dst merged : SourceRestriction)
      → merge_subjects repo tenant subjects dst ≡ ok merged
      → Keeps dst merged
        × ((kind : RestrictionSubject) (id : String) (rows : List SourceRestriction)
            → Listed (kind, id) subjects
            → repo.restrictions_for_subject tenant kind id ≡ ok rows
            → Each (λ r. Keeps r merged) rows)
  unfolding merge_subjects
  merge_subjects-Keeps tenant [] dst merged h =
      let same : dst ≡ merged = cc h in
      (rw same (Keeps-refl merged), λ kind id rows listed e. absurd listed)
  merge_subjects-Keeps tenant ((kind, id) ∷ subjects) dst merged h =
      let (found, e, h') =
        ok_of_bind (repo.restrictions_for_subject tenant kind id)
          (λ rows. merge_subjects repo tenant subjects (merge_all dst rows)) h in
      let (before, rest) = merge_subjects-Keeps tenant subjects (merge_all dst found) merged h' in
      let (old, new) = merge_all-Keeps dst found in
      (
        Keeps-trans dst (merge_all dst found) merged old before,
        λ kind' id' rows listed e'. elim listed [
          | inl same ↦
              let k : kind ≡ kind' = ap (λ x. x.0) same in
              let i : id ≡ id' = ap (λ x. x.1) same in
              let r : found ≡ rows = cc (e, e', k, i) in
              rw (sym r) (Each-Keeps found (merge_all dst found) merged new before)
          | inr later ↦ rest kind' id' rows later e'
        ],
      )

  -- A request whose narrowing is let through keeps what is persisted: every capability that a
  -- restriction of the object or of its connection denies is denied in the request, and its required
  -- assurance ranks no higher than the one that the request requires.
  pub check_narrowing-Keeps :
      (obj : Object) (requested : SourceRestriction) (kind : RestrictionSubject) (id : String)
      (rows : List SourceRestriction)
      → check_narrowing repo obj (some requested) ≡ ok tt
      → Listed (kind, id) (subjects_of repo obj "")
      → repo.restrictions_for_subject obj.tenant_id kind id ≡ ok rows
      → Each (λ r. Keeps r requested) rows
  unfolding check_narrowing effective_restrictions merge_all
  check_narrowing-Keeps obj requested kind id rows h listed e =
      let (persisted, found, checks) = ok_of_bind (effective_restrictions repo obj none "") _ h in
      let (merged, merging, made) =
        ok_of_bind (merge_subjects repo obj.tenant_id (subjects_of repo obj "") no_restriction) _
          found in
      let same : merged ≡ persisted = cc made in
      let (retained, ranks) =
        require_then denied (retains persisted.denied_capabilities requested.denied_capabilities) _
          checks in
      let ranked = require_ok denied _ ranks in
      let all =
        (merge_subjects-Keeps obj.tenant_id (subjects_of repo obj "") no_restriction merged
            merging).1
          kind id rows listed e in
      Each-Keeps rows merged requested all (
        rw same (
          leb→le _ _ ranked,
          λ c k.
              retains-contains persisted.denied_capabilities requested.denied_capabilities c
                retained k,
        ))
