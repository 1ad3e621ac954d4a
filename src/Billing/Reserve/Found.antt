-- ===== src/Billing/Reserve/Found.antt =====
-- The canonical row that `Reserve` of internal/billing/service.go writes.
use mini_enclava_go.Common.{
  ℕ, ◌≡◌, refl, sym, ap, ◌∙◌, inl, inr, Bool, true, false, ◌&&◌, ◌||◌, String, str_eq, eq_iff, List,
  [], ◌∷◌, ◌++◌, map, Option, none, some, ok, arith, Bool-cases, any_where, find_where,
  find_where-added,
}
use mini_enclava_go.Billing.Types.{Subject}
use mini_enclava_go.Billing.Ledger.{
  Clock, State, Reservation, Ledger, same_subject, is_among, is_absent, same_attribution, same_id,
  is_taken, is_canonical, insert_by, order_by, insert_reservations, get_reservation,
}
use mini_enclava_go.Billing.Ledger.Canonical.{
  inserted_row, inserted_row, insert_reservations-taken, insert_reservations-free,
  insert_reservations-find, find-get_reservation,
}
use mini_enclava_go.Billing.Reserve.{
  normal_subject, collect_subjects, subject_before, subjects_for, ReserveRequest, Payer,
  charged_subject, reservation_of, row_for, reserve,
}
use mini_enclava_go.Billing.Reserve.Calls.{reserve_lem}

same_subject_refl : (s : Subject) → same_subject s s ≡ true
same_subject_refl s = ground (arith, eq_iff s.kind s.kind, eq_iff s.id s.id)

same_subject-equal : (s t : Subject) → same_subject s t ≡ true → s ≡ t
same_subject-equal s t h =
    let kinds : s.kind ≡ t.kind = ground (arith, h, eq_iff s.kind t.kind) in
    let ids : s.id ≡ t.id = ground (arith, h, eq_iff s.id t.id) in cc (kinds, ids)

any_where-append :
    {A : Type 0} (p : A → Bool) (xs ys : List A)
    → any_where p xs ≡ true
    → any_where p (xs ++ ys) ≡ true
unfolding any_where
any_where-append p [] ys h = cc h
any_where-append p (x ∷ xs) ys h = elim (Bool-cases (p x)) [
  | inl here ↦ rw here refl
  | inr other ↦ rw other (any_where-append p xs ys (ground (arith, other, h)))
]

-- A subject that was collected stays.
collect_subjects-keeps :
    (tenant : String) (subjects out : List Subject) (s : Subject)
    → is_among s out ≡ true
    → is_among s (collect_subjects tenant subjects out) ≡ true
unfolding collect_subjects
collect_subjects-keeps tenant [] out s h = h
collect_subjects-keeps tenant (t ∷ subjects) out s h =
    let skip =
      str_eq t.kind ""
      || (str_eq (normal_subject tenant t).id "" || is_among (normal_subject tenant t) out) in
    elim (Bool-cases skip) [
      | inl old ↦ rw old (collect_subjects-keeps tenant subjects out s h)
      | inr fresh ↦ rw fresh (
          collect_subjects-keeps tenant subjects (out ++ normal_subject tenant t ∷ []) s
            (any_where-append (λ x. same_subject x s) out (normal_subject tenant t ∷ []) h))
    ]

-- Sorting loses no row.
any_where-insert_by :
    {A : Type 0} (p : A → Bool) (before : A → A → Bool) (x : A) (xs : List A)
    → any_where p (insert_by before x xs) ≡ p x || any_where p xs
unfolding any_where insert_by
any_where-insert_by p before x [] = refl
any_where-insert_by p before x (y ∷ ys) = elim (Bool-cases (before x y)) [
  | inl first ↦ rw first refl
  | inr later ↦ rw (later, any_where-insert_by p before x ys) (ground arith)
]

any_where-order_by :
    {A : Type 0} (p : A → Bool) (before : A → A → Bool) (xs : List A)
    → any_where p (order_by before xs) ≡ any_where p xs
unfolding any_where order_by
any_where-order_by p before [] = refl
any_where-order_by p before (x ∷ xs) =
    any_where-insert_by p before x (order_by before xs) ∙ rw (any_where-order_by p before xs) refl

-- A charged subject that `subjectsFor` takes as it is.
abbrev pub IsPlain : String → Subject → Type 0
IsPlain tenant s =
    (str_eq s.kind "" ≡ false) × (str_eq s.id "" ≡ false) × (normal_subject tenant s ≡ s)

collect_subjects-first :
    (tenant : String) (billing : Subject) (rest : List Subject)
    → str_eq billing.kind "" ≡ false
    → str_eq billing.id "" ≡ false
    → normal_subject tenant billing ≡ billing
    → collect_subjects tenant (billing ∷ rest) [] ≡ collect_subjects tenant rest (billing ∷ [])
unfolding collect_subjects any_where
collect_subjects-first tenant billing rest kind id normal = rw (normal, kind, id) refl

subjects_for-charged :
    (tenant : String) (billing : Subject) (keys : List Subject)
    → IsPlain tenant billing
    → is_among billing (subjects_for tenant billing keys) ≡ true
unfolding subjects_for
subjects_for-charged tenant billing keys (kind, id, normal) =
    let one : is_among billing (billing ∷ []) ≡ true =
      unfold any_where in rw (same_subject_refl billing) refl in
    let rest = record { kind = "tenant"; id = tenant } ∷ keys in
    any_where-order_by (λ t. same_subject t billing) subject_before
      (collect_subjects tenant (billing ∷ rest) [])
    ∙ ap (λ out. is_among billing out) (collect_subjects-first tenant billing rest kind id normal)
    ∙ collect_subjects-keeps tenant rest (billing ∷ []) billing one

-- Of the rows that are to be inserted the canonical one is the charged subject's.
row_for-find :
    (tenant id : String) (billing : Subject) (out : Reservation) (subjects : List Subject)
    → out.tenant_id ≡ tenant
    → out.id.reservation ≡ id
    → is_among billing subjects ≡ true
    → find_where (is_canonical tenant id) (map (row_for billing out) subjects)
      ≡ some (row_for billing out billing)
unfolding find_where any_where
row_for-find tenant id billing out [] own this h = cc h
row_for-find tenant id billing out (s ∷ subjects) own this h =
    let tenants : str_eq out.tenant_id tenant ≡ true =
      ground (arith, own, eq_iff out.tenant_id tenant) in
    let ids : str_eq out.id.reservation id ≡ true =
      ground (arith, this, eq_iff out.id.reservation id) in
    elim (Bool-cases (same_subject s billing)) [
      | inl charged ↦
          let same = same_subject-equal s billing charged in
          rw (same, tenants, ids, same_subject_refl billing) refl
      | inr other ↦
          rw (tenants, ids, other)
            (row_for-find tenant id billing out subjects own this (ground (arith, other, h)))
    ]

any_where-cong :
    {A : Type 0} (p q : A → Bool) (xs : List A)
    → ((x : A) → p x ≡ q x)
    → any_where p xs ≡ any_where q xs
unfolding any_where
any_where-cong p q [] same = refl
any_where-cong p q (x ∷ xs) same = rw (same x, any_where-cong p q xs same) refl

same_attribution-none :
    (a b : Option Subject) → is_absent b ≡ true → same_attribution a b ≡ is_absent a
same_attribution-none a (some s) h = cc h
same_attribution-none none none h = refl
same_attribution-none (some s) none h = refl

is_canonical-taken :
    (tenant id : String) (x : Reservation) (table : List Reservation)
    → is_canonical tenant id x ≡ true
    → any_where (is_canonical tenant id) table ≡ is_taken x table
is_canonical-taken tenant id x table h =
    let own : x.tenant_id ≡ tenant = ground (arith, h, eq_iff x.tenant_id tenant) in
    let this : x.id.reservation ≡ id = ground (arith, h, eq_iff x.id.reservation id) in
    let plain : is_absent x.id.attribution ≡ true = ground (arith, h) in
    any_where-cong (is_canonical tenant id)
      (λ s. str_eq s.tenant_id x.tenant_id && same_id s.id x.id) table
      (λ s. rw (own, this, same_attribution-none s.id.attribution x.id.attribution plain) refl)

found_first :
    (p : Reservation → Bool) (x : Reservation) (rows : List Reservation) {r : Reservation}
    → p x ≡ true
    → find_where p (x ∷ rows) ≡ some r
    → x ≡ r
unfolding find_where
found_first p x rows {r} h e = let same : some x ≡ some r = sym (rw h refl) ∙ e in cc same

found_later :
    (p : Reservation → Bool) (x : Reservation) (rows : List Reservation) {r : Reservation}
    → p x ≡ false
    → find_where p (x ∷ rows) ≡ some r
    → find_where p rows ≡ some r
unfolding find_where
found_later p x rows h e = sym (rw h refl) ∙ e

-- The canonical one of some rows is found in the table after their insertion.
insert_reservations-new :
    (tenant id : String) (now : ℕ) (rows table table' : List Reservation) {r : Reservation}
    → find_where (is_canonical tenant id) rows ≡ some r
    → insert_reservations now rows table ≡ ok table'
    → find_where (is_canonical tenant id) table' ≡ some (inserted_row now r)
unfolding find_where
insert_reservations-new tenant id now [] table table' e h = cc e
insert_reservations-new tenant id now (x ∷ rows) table table' {r} e h =
    let x' : Reservation = inserted_row now x in
    elim (Bool-cases (is_taken x table)) [
      | inl taken ↦ cc (sym (insert_reservations-taken now x rows table taken) ∙ h)
      | inr free ↦
          let h' = sym (insert_reservations-free now x rows table free) ∙ h in
          elim (Bool-cases (is_canonical tenant id x)) [
            | inl here ↦
                let x_is : x ≡ r = found_first (is_canonical tenant id) x rows here e in
                insert_reservations-find now (is_canonical tenant id) rows (table ++ x' ∷ []) table'
                  (rw (sym x_is) (
                    find_where-added (is_canonical tenant id) table x'
                      (is_canonical-taken tenant id x table here ∙ free) here))
                  h'
            | inr other ↦
                insert_reservations-new tenant id now rows (table ++ x' ∷ []) table'
                  (found_later (is_canonical tenant id) x rows other e) h'
          ]
    ]

module _ (text_before : String → String → Bool) (month_start : ℕ → ℕ) where
  -- The reservation that `Reserve` returns is in the ledger under its id, held and not dispatched, with
  -- the price, the bound and the units that were returned, created at the time of the database, if the charged subject has a type and an id
  -- and, where its type is `tenant`, the id of the caller's tenant.
  pub reserve-held :
      (p : Payer) (req : ReserveRequest) (id : String) (now : Clock) (l : Ledger)
      (res : Reservation) (l' : Ledger)
      → IsPlain p.tenant_id (charged_subject p req)
      → reserve text_before month_start p req id now l ≡ ok (res, l')
      → (get_reservation p.tenant_id id l' ≡ ok (record res { created_at = now.database }))
        × (res.state ≡ State.held)
        × (res.dispatched_at ≡ none)
  reserve-held p req id now l res l' plain h =
      let d = reserve_lem text_before month_start p req id now l res l' h in
      let billing = charged_subject p req in
      let out = reservation_of p req id now.service d.estimate d.snapshot d.bound in
      let found =
        insert_reservations-new p.tenant_id id now.database
          (map (row_for billing out) (subjects_for p.tenant_id billing req.subject_keys))
          l.reservations d.rows
          (row_for-find p.tenant_id id billing out
            (subjects_for p.tenant_id billing req.subject_keys) refl refl
            (subjects_for-charged p.tenant_id billing req.subject_keys plain))
          d.inserted in
      let own : row_for billing out billing ≡ record out { subject = billing } =
        rw (same_subject_refl billing) refl in
      (
        find-get_reservation p.tenant_id id l' (
            rw (d.ledger, d.returned)
              (found ∙ ap (λ (r : Reservation). some (inserted_row now.database r)) own)),
        rw d.returned refl,
        rw d.returned refl,
      )
