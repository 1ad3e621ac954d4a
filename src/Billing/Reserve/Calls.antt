-- ===== src/Billing/Reserve/Calls.antt =====
-- Every way in which the ledger of internal/billing/service.go changes, as one call, and a canonical
-- reservation through any sequence of calls.
use mini_enclava_go.Common.{
  ℕ, ◌≡◌, refl, sym, ◌∙◌, ◌⊎◌, inl, inr, Bool, true, false, not, ◌||◌, String, str_eq, List, [],
  ◌∷◌, map, Option, none, some, ok, err, ◌>>=◌, ok_of_bind, require_then, ok_of_then, ok_pair,
  arith, Bool-cases, any_where, ◌++◌,
}
use mini_enclava_go.Common.Int64.{ℤ}
use mini_enclava_go.Billing.Types.{
  Result, Error, reservation_not_found, reservation_state, invalid, Units, Usage, PriceSnapshot,
}
use mini_enclava_go.Billing.Charge.{unit_map, snapshot_for, charge}
use mini_enclava_go.Billing.Ledger.{
  Clock, State, settled, unknown, released, Reservation, UsageRecord, Ledger, get_reservation,
  transition, insert_usage_record, insert_reservations, get_usage_record, is_held, is_absent,
  is_canonical, stamp_dispatched, lock_active_budgets, select_prices, is_usage_for,
}
use mini_enclava_go.Billing.Ledger.Canonical.{
  Moves, Moves-refl, Moves-trans, transition-Moves, stamp_dispatched-Moves,
  insert_reservations-find, get_reservation-find, find-get_reservation,
}
use mini_enclava_go.Billing.Reserve.{
  ReserveRequest, Payer, reserve, settle, settle_by, settle_held, usage_of, mark_unknown,
  mark_dispatched, is_released, release_undispatched, release_by, charged_subject, subjects_for,
  row_for, reservation_of, admit_all, is_empty,
}

pub data Call : Type 0 where
  reserves : (p : Payer) (req : ReserveRequest) (id : String) (now : Clock) → Call
  settles : (tenant reservation : String) (actual : Usage) (id : String) (now : Clock) → Call
  marks_unknown : (tenant reservation : String) (now : ℕ) → Call
  marks_dispatched : (tenant reservation : String) (now : ℕ) → Call
  releases : (tenant reservation : String) (now : ℕ) → Call

-- The ledger after a call; an error rolls back.
abbrev pub after_value : {A : Type 0} → Ledger → Result (A × Ledger) → Ledger
after_value l (ok (a, l')) = l'
after_value l (err e) = l

abbrev pub after_ledger : Ledger → Result Ledger → Ledger
after_ledger l (ok l') = l'
after_ledger l (err e) = l

pub is_absent-none : {A : Type 0} (o : Option A) → is_absent o ≡ true → o ≡ none
is_absent-none none e = refl
is_absent-none (some a) e = cc e

no_result :
    {A B : Type 0} (first : Result A) (x : Error) {b : B} → (first >>= λ a. err x) ≡ ok b → ⊥
no_result (ok a) x h = cc h
no_result (err y) x h = cc h

pub mark_unknown_lem :
    (mover reservation : String) (now : ℕ) (l l' : Ledger)
    → mark_unknown mover reservation now l ≡ ok l'
    → l' ≡ (transition mover reservation unknown now l).1
mark_unknown_lem mover reservation now l l' h =
    elim (Bool-cases (transition mover reservation unknown now l).0) [
      | inl moved ↦
          let done : mark_unknown mover reservation now l
              ≡ ok (transition mover reservation unknown now l).1 =
            unfold mark_unknown in rw (mark_unknown, moved) refl in
          cc (sym done ∙ h)
      | inr nothing ↦
          let done : mark_unknown mover reservation now l
              ≡ (get_reservation mover reservation l >>= λ res. err reservation_state) =
            unfold mark_unknown in rw (mark_unknown, nothing) refl in
          absurd (no_result (get_reservation mover reservation l) reservation_state (sym done ∙ h))
    ]

-- What a release does when it succeeds: nothing, or it moves rows of a reservation that was never
-- dispatched.
pub release_by_lem :
    (row : Reservation) (mover reservation : String) (now : ℕ) (l l' : Ledger)
    → release_by row mover reservation now l ≡ ok l'
    → (l' ≡ l)
      ⊎ ((row.dispatched_at ≡ none) × (l' ≡ (transition mover reservation released now l).1))
unfolding release_by
release_by_lem row mover reservation now l l' h = elim (Bool-cases (is_released row.state)) [
  | inl gone ↦ inl (ground (arith, gone))
  | inr other ↦ elim (Bool-cases (not (is_held row.state) || not (is_absent row.dispatched_at))) [
    | inl bad ↦ absurd (ground (arith, other, bad))
    | inr good ↦ inr (is_absent-none row.dispatched_at (ground arith), ground (arith, other, good))
  ]
]

-- The record that the table has of some evidence.
abbrev pub stored_record : ℕ → UsageRecord → UsageRecord
stored_record now u = record u { created_at = now }

-- What a first settlement does when it succeeds.
pub record SettledHeld (tenant reservation id : String) (now : Clock) (units : Units)
    (res : Reservation) (l : Ledger) (u : UsageRecord) (l' : Ledger) : Type 0 where
  pub amount : ℤ
  pub charged : charge units res.price ≡ ok amount
  pub evidence : u ≡ usage_of tenant reservation id now.service units amount res
  pub first : any_where (is_usage_for tenant reservation) l.usage ≡ false
  pub ledger : l' ≡ record (transition tenant reservation settled now.database l).1 {
    usage = l.usage ++ stored_record now.database u ∷ [];
  }

insert_usage_record_lem :
    (now : ℕ) (u : UsageRecord) (l l' : Ledger)
    → insert_usage_record now u l ≡ ok l'
    → (any_where (is_usage_for u.tenant_id u.reservation_id) l.usage ≡ false)
      × (l' ≡ record l { usage = l.usage ++ stored_record now u ∷ [] })
unfolding insert_usage_record
insert_usage_record_lem now u l l' h =
    elim (Bool-cases (any_where (is_usage_for u.tenant_id u.reservation_id) l.usage)) [
      | inl taken ↦ absurd (ground (arith, taken))
      | inr free ↦ (free, ground (arith, free))
    ]

pub settle_held_lem :
    (tenant reservation id : String) (now : Clock) (units : Units) (res : Reservation) (l : Ledger)
    (u : UsageRecord) (l' : Ledger)
    → settle_held tenant reservation id now units res l ≡ ok (u, l')
    → SettledHeld tenant reservation id now units res l u l'
unfolding settle_held transition
settle_held_lem tenant reservation id now units res l u l' h =
    let (amount, charged, h₁) = ok_of_bind (charge units res.price) _ h in
    let step : Ledger = (transition tenant reservation settled now.database l).1 in
    let new : UsageRecord = usage_of tenant reservation id now.service units amount res in
    let (_, h₂) =
      require_then reservation_not_found (transition tenant reservation settled now.database l).0 _
        h₁ in
    let (l'', inserted, h₃) = ok_of_bind (insert_usage_record now.database new step) _ h₂ in
    let (u_is, l_is) = ok_pair h₃ in
    let (first, table) = insert_usage_record_lem now.database new step l'' inserted in
    record {
      amount = amount;
      charged = charged;
      evidence = u_is;
      first = first;
      ledger = rw u_is (l_is ∙ table);
    }

-- The canonical row r of a reservation of l is in l', moved.
abbrev pub GoesOn : String → String → Reservation → Ledger → Type 0
GoesOn tenant id r l = (s : Reservation) × (get_reservation tenant id l ≡ ok s) × Moves r s

module _ (tenant id : String) (l : Ledger) (r : Reservation)
    (e : get_reservation tenant id l ≡ ok r) where
  stays : GoesOn tenant id r l
  stays = (r, e, Moves-refl r)

  after_value-GoesOn :
      {A : Type 0} (result : Result (A × Ledger))
      → ((a : A) (l' : Ledger) → result ≡ ok (a, l') → GoesOn tenant id r l')
      → GoesOn tenant id r (after_value l result)
  after_value-GoesOn (ok (a, l')) h = h a l' refl
  after_value-GoesOn (err x) h = stays

  after_ledger-GoesOn :
      (result : Result Ledger)
      → ((l' : Ledger) → result ≡ ok l' → GoesOn tenant id r l')
      → GoesOn tenant id r (after_ledger l result)
  after_ledger-GoesOn (ok l') h = h l' refl
  after_ledger-GoesOn (err x) h = stays

  mark_unknown-GoesOn :
      (mover reservation : String) (now : ℕ) (l' : Ledger)
      → mark_unknown mover reservation now l ≡ ok l'
      → GoesOn tenant id r l'
  mark_unknown-GoesOn mover reservation now l' h =
      rw (mark_unknown_lem mover reservation now l l' h)
        (transition-Moves tenant id mover reservation unknown now l r e (λ x. cc x))

  mark_dispatched-GoesOn :
      (mover reservation : String) (now : ℕ) (l' : Ledger)
      → mark_dispatched mover reservation now l ≡ ok l'
      → GoesOn tenant id r l'
  unfolding mark_dispatched
  mark_dispatched-GoesOn mover reservation now l' h =
      let (row, found, done) = ok_of_bind (get_reservation mover reservation l) _ h in
      let same : stamp_dispatched mover reservation now l ≡ l' = cc done in
      rw (sym same) (stamp_dispatched-Moves tenant id mover reservation now l r e)

  release_by-GoesOn :
      (row : Reservation) (mover reservation : String) (now : ℕ) (l' : Ledger)
      → get_reservation mover reservation l ≡ ok row
      → release_by row mover reservation now l ≡ ok l'
      → GoesOn tenant id r l'
  release_by-GoesOn row mover reservation now l' found h =
      elim (release_by_lem row mover reservation now l l' h) [
        | inl same ↦ rw same stays
        | inr (never, moved) ↦ rw moved (
            transition-Moves tenant id mover reservation released now l r e
              (λ _ again. let same : row ≡ r = cc (found, again) in rw (sym same) never))
      ]

  settle_held-GoesOn :
      (payer reservation new : String) (now : Clock) (units : Units) (row : Reservation)
      (u : UsageRecord) (l' : Ledger)
      → settle_held payer reservation new now units row l ≡ ok (u, l')
      → GoesOn tenant id r l'
  unfolding transition get_reservation
  settle_held-GoesOn payer reservation new now units row u l' h =
      let s = settle_held_lem payer reservation new now units row l u l' h in
      let (t, found, moves) =
        transition-Moves tenant id payer reservation settled now.database l r e (λ x. cc x) in
      (t, rw s.ledger found, moves)

  settle_by-GoesOn :
      (state : State) (payer reservation new : String) (now : Clock) (units : Units)
      (row : Reservation) (u : UsageRecord) (l' : Ledger)
      → settle_by state payer reservation new now units row l ≡ ok (u, l')
      → GoesOn tenant id r l'
  unfolding settle_by
  settle_by-GoesOn State.held payer reservation new now units row u l' h =
      settle_held-GoesOn payer reservation new now units row u l' h
  settle_by-GoesOn State.settled payer reservation new now units row u l' h =
      let (v, _, done) = ok_of_bind (get_usage_record payer reservation l) _ h in
      let same : l ≡ l' = cc done in rw (sym same) stays
  settle_by-GoesOn State.unknown payer reservation new now units row u l' h = cc h
  settle_by-GoesOn State.released payer reservation new now units row u l' h = cc h

  settle-GoesOn :
      (payer reservation : String) (actual : Usage) (new : String) (now : Clock) (u : UsageRecord)
      (l' : Ledger)
      → settle payer reservation actual new now l ≡ ok (u, l')
      → GoesOn tenant id r l'
  unfolding settle
  settle-GoesOn payer reservation actual new now u l' h =
      let (units, _, h₁) = ok_of_bind (unit_map actual) _ h in
      let (row, _, h₂) = ok_of_bind (get_reservation payer reservation l) _ h₁ in
      settle_by-GoesOn row.state payer reservation new now units row u l' h₂

  release_undispatched-GoesOn :
      (mover reservation : String) (now : ℕ) (l' : Ledger)
      → release_undispatched mover reservation now l ≡ ok l'
      → GoesOn tenant id r l'
  unfolding release_undispatched
  release_undispatched-GoesOn mover reservation now l' h =
      let (row, found, h₁) = ok_of_bind (get_reservation mover reservation l) _ h in
      release_by-GoesOn row mover reservation now l' found h₁

  inserted-GoesOn :
      (now : ℕ) (rows table : List Reservation)
      → insert_reservations now rows l.reservations ≡ ok table
      → GoesOn tenant id r (record l { reservations = table })
  inserted-GoesOn now rows table h = (
    r,
    find-get_reservation tenant id (record l { reservations = table })
        (insert_reservations-find now (is_canonical tenant id) rows l.reservations table
          (get_reservation-find tenant id l e) h),
    Moves-refl r,
  )

module _ (text_before : String → String → Bool) (month_start : ℕ → ℕ) where
  -- What a reservation does when it succeeds: each step's result, and the rows that it inserts.
  pub record Reserved (p : Payer) (req : ReserveRequest) (id : String) (now : Clock) (l : Ledger)
      (res : Reservation) (l' : Ledger) : Type 0 where
    pub estimate : Units
    pub snapshot : PriceSnapshot
    pub bound : ℤ
    pub rows : List Reservation
    pub estimated : unit_map req.estimate ≡ ok estimate
    pub bounded : charge estimate snapshot ≡ ok bound
    pub admitted :
        admit_all month_start p.tenant_id now.service l bound estimate snapshot.currency (
          lock_active_budgets text_before p.tenant_id
            (subjects_for p.tenant_id (charged_subject p req) req.subject_keys)
            now.service
            l)
        ≡ ok tt
    pub inserted :
        insert_reservations now.database
          (map
            (row_for
              (charged_subject p req)
              (reservation_of p req id now.service estimate snapshot bound))
            (subjects_for p.tenant_id (charged_subject p req) req.subject_keys))
          l.reservations
        ≡ ok rows
    pub returned : res ≡ record (reservation_of p req id now.service estimate snapshot bound) {
      subject = charged_subject p req;
    }
    pub ledger : l' ≡ record l { reservations = rows }

  pub reserve_lem :
      (p : Payer) (req : ReserveRequest) (id : String) (now : Clock) (l : Ledger)
      (res : Reservation) (l' : Ledger)
      → reserve text_before month_start p req id now l ≡ ok (res, l')
      → Reserved p req id now l res l'
  unfolding reserve
  reserve_lem p req id now l res l' h =
      let (_, h₁) =
        require_then invalid
          (not (str_eq req.capability "" || (str_eq req.price_type "" || str_eq req.price_id ""))) _
          h in
      let (estimate, estimated, h₂) = ok_of_bind (unit_map req.estimate) _ h₁ in
      let (_, h₃) = require_then invalid (not (is_empty estimate)) _ h₂ in
      let billing = charged_subject p req in
      let subjects = subjects_for p.tenant_id billing req.subject_keys in
      let (snapshot, _, h₄) =
        ok_of_bind
          (snapshot_for
            (select_prices text_before p.tenant_id req.price_type req.price_id req.capability
              now.service l)
            estimate)
          _ h₃ in
      let (bound, bounded, h₅) = ok_of_bind (charge estimate snapshot) _ h₄ in
      let (admitted, h₆) = ok_of_then _ _ h₅ in
      let out = reservation_of p req id now.service estimate snapshot bound in
      let (rows, inserted, h₇) =
        ok_of_bind
          (insert_reservations now.database (map (row_for billing out) subjects) l.reservations) _
          h₆ in
      let made = ok_pair h₇ in
      record {
        estimate = estimate;
        snapshot = snapshot;
        bound = bound;
        rows = rows;
        estimated = estimated;
        bounded = bounded;
        admitted = admitted;
        inserted = inserted;
        returned = made.0;
        ledger = made.1;
      }

  unfoldable pub call : Call → Ledger → Ledger
  call (reserves p req id now) l = after_value l (reserve text_before month_start p req id now l)
  call (settles tenant reservation actual id now) l =
      after_value l (settle tenant reservation actual id now l)
  call (marks_unknown tenant reservation now) l =
      after_ledger l (mark_unknown tenant reservation now l)
  call (marks_dispatched tenant reservation now) l =
      after_ledger l (mark_dispatched tenant reservation now l)
  call (releases tenant reservation now) l =
      after_ledger l (release_undispatched tenant reservation now l)

  unfoldable pub run : List Call → Ledger → Ledger
  run [] l = l
  run (c ∷ cs) l = run cs (call c l)

  call-GoesOn :
      (tenant id : String) (c : Call) (l : Ledger) (r : Reservation)
      → get_reservation tenant id l ≡ ok r
      → GoesOn tenant id r (call c l)
  unfolding call
  call-GoesOn tenant id (reserves p req new now) l r e =
      after_value-GoesOn tenant id l r e _ (λ res l' h.
        let d = reserve_lem p req new now l res l' h in
        rw d.ledger (inserted-GoesOn tenant id l r e _ _ d.rows d.inserted))
  call-GoesOn tenant id (settles payer reservation actual new now) l r e =
      after_value-GoesOn tenant id l r e _
        (λ u l' h. settle-GoesOn tenant id l r e payer reservation actual new now u l' h)
  call-GoesOn tenant id (marks_unknown mover reservation now) l r e =
      after_ledger-GoesOn tenant id l r e _
        (λ l' h. mark_unknown-GoesOn tenant id l r e mover reservation now l' h)
  call-GoesOn tenant id (marks_dispatched mover reservation now) l r e =
      after_ledger-GoesOn tenant id l r e _
        (λ l' h. mark_dispatched-GoesOn tenant id l r e mover reservation now l' h)
  call-GoesOn tenant id (releases mover reservation now) l r e =
      after_ledger-GoesOn tenant id l r e _
        (λ l' h. release_undispatched-GoesOn tenant id l r e mover reservation now l' h)

  -- Through any sequence of calls a reservation that is there stays there, with its price snapshot, its
  -- bound, its units and its subject; it keeps its state unless that was held, its dispatch is not
  -- forgotten, and it is released only if it was released or had not been dispatched.
  pub run-Moves :
      (tenant id : String) (cs : List Call) (l : Ledger) (r : Reservation)
      → get_reservation tenant id l ≡ ok r
      → (s : Reservation) × (get_reservation tenant id (run cs l) ≡ ok s) × Moves r s
  unfolding run
  run-Moves tenant id [] l r e = (r, e, Moves-refl r)
  run-Moves tenant id (c ∷ cs) l r e =
      let (s, found, moves) = call-GoesOn tenant id c l r e in
      let (t, found', moves') = run-Moves tenant id cs (call c l) s found in
      (t, found', Moves-trans r s t moves moves')
