-- ===== src/Billing/Reserve/Settled.antt =====
-- What `Settle`, `MarkDispatched` and `MarkUnknown` of internal/billing/service.go promise about a
-- reservation and its liability.
use mini_enclava_go.Common.{
  ℕ, ◌≡◌, ◌≢◌, refl, sym, ap, ◌∙◌, ◌⊎◌, inl, inr, Bool, true, false, not, ◌&&◌, String, List, [],
  ◌∷◌, ◌++◌, map, Option, none, some, ok, err, ok_of_bind, arith, Bool-cases, select_where,
  select_where-update_where, select_where-dropped, find_where-update_where, find_where-holds,
  ok_pair,
}
use mini_enclava_go.Billing.Types.{reservation_state, Units, Usage, Subject}
use mini_enclava_go.Billing.Charge.{unit_map}
use mini_enclava_go.Billing.Ledger.{
  Clock, State, settled, unknown, Reservation, UsageRecord, Ledger, get_reservation, transition,
  get_usage_record, is_absent, is_canonical, liabilities, is_liability, reserved_liability,
  settled_liability, is_usage_of, may_move, moved_to, stamp_dispatched, is_row_of,
}
use mini_enclava_go.Billing.Ledger.Canonical.{
  get_reservation-find, find-get_reservation, is_held-held,
}
use mini_enclava_go.Billing.Reserve.{
  settle, settle_by, mark_unknown, mark_dispatched, release_undispatched, release_by, is_released,
}
use mini_enclava_go.Billing.Reserve.Calls.{
  Call, run, run-Moves, settle_held_lem, SettledHeld, stored_record, mark_unknown_lem,
}

-- The row that the transition of a held reservation to `to` leaves.
pub transition-found :
    (tenant id : String) (to : State) (now : ℕ) (l : Ledger) (r : Reservation)
    → get_reservation tenant id l ≡ ok r
    → r.state ≡ State.held
    → (s : Reservation) × (get_reservation tenant id (transition tenant id to now l).1 ≡ ok s)
      × (s.state ≡ to)
unfolding transition
transition-found tenant id to now l r e was =
    let found = get_reservation-find tenant id l e in
    let canonical = find_where-holds (is_canonical tenant id) l.reservations found in
    let moves : may_move tenant id r ≡ true = ground (arith, canonical, was) in
    (
      moved_to to now r,
      find-get_reservation tenant id (transition tenant id to now l).1 (
          find_where-update_where (is_canonical tenant id) (may_move tenant id) (moved_to to now)
            l.reservations (λ s. refl) found
          ∙ rw moves refl),
      refl,
    )

-- A settlement that succeeds found the evidence, or is the first.
pub settle_by_lem :
    (state : State) (tenant id new : String) (now : Clock) (units : Units) (row : Reservation)
    (l : Ledger) (u : UsageRecord) (l' : Ledger)
    → settle_by state tenant id new now units row l ≡ ok (u, l')
    → ((state ≡ State.settled) × (get_usage_record tenant id l ≡ ok u) × (l' ≡ l))
      ⊎ ((state ≡ State.held) × SettledHeld tenant id new now units row l u l')
unfolding settle_by
settle_by_lem State.settled tenant id new now units row l u l' h =
    let (v, evidence, done) = ok_of_bind (get_usage_record tenant id l) _ h in
    let (u_is, l_is) = ok_pair done in inl (refl, rw u_is evidence, l_is)
settle_by_lem State.held tenant id new now units row l u l' h =
    inr (refl, settle_held_lem tenant id new now units row l u l' h)
settle_by_lem State.unknown tenant id new now units row l u l' h = cc h
settle_by_lem State.released tenant id new now units row l u l' h = cc h

pub settled-found :
    (tenant id new : String) (now : Clock) (units : Units) (row : Reservation) (l : Ledger)
    (u : UsageRecord) (l' : Ledger)
    → SettledHeld tenant id new now units row l u l'
    → {s : Reservation}
    → get_reservation tenant id (transition tenant id settled now.database l).1 ≡ ok s
    → get_reservation tenant id l' ≡ ok s
unfolding get_reservation transition
settled-found tenant id new now units row l u l' first e = rw first.ledger e

-- A row that moves to `unknown` counts as it did while it was held.
is_liability-moved_to :
    (mover id tenant : String) (scope : Subject) (now : ℕ) (r : Reservation)
    → may_move mover id r ≡ true
    → is_liability tenant scope (moved_to unknown now r) ≡ is_liability tenant scope r
is_liability-moved_to mover id tenant scope now r h =
    let was = is_held-held r.state (ground (arith, h)) in rw was refl

-- When the outcome of a reservation becomes unknown its liability is retained: what counts against
-- any subject of any tenant, from any instant on, is the same list as before.
pub mark_unknown-liabilities :
    (mover id : String) (now : ℕ) (l l' : Ledger) (tenant : String) (scope : Subject) (from : ℕ)
    → mark_unknown mover id now l ≡ ok l'
    → liabilities tenant scope from l' ≡ liabilities tenant scope from l
unfolding liabilities transition
mark_unknown-liabilities mover id now l l' tenant scope from h =
    let same =
      select_where-update_where (is_liability tenant scope) (may_move mover id)
        (moved_to unknown now) reserved_liability l.reservations
        (is_liability-moved_to mover id tenant scope now) (λ r. refl) in
    rw (mark_unknown_lem mover id now l l' h) (
      ap
        (λ rows.
          rows ++ map settled_liability (select_where (is_usage_of tenant scope from) l.usage))
        same)

is_liability-settled :
    (mover id tenant : String) (scope : Subject) (now : ℕ) (r : Reservation)
    → may_move mover id r ≡ true
    → is_liability tenant scope (moved_to settled now r) ≡ false
is_liability-settled mover id tenant scope now r h = ground arith

-- A settlement of a held reservation exchanges its liability for the evidence, in the same step: what
-- counts against any subject of any tenant is then the reservations that counted, without the rows
-- of this one that were held, and the usage records of the subject with the new one at their end,
-- created at the time of the database.
pub settle-liabilities :
    (payer id : String) (actual : Usage) (new : String) (now : Clock) (l : Ledger) (r : Reservation)
    (u : UsageRecord) (l' : Ledger) (tenant : String) (scope : Subject) (from : ℕ)
    → get_reservation payer id l ≡ ok r
    → r.state ≡ State.held
    → settle payer id actual new now l ≡ ok (u, l')
    → liabilities tenant scope from l'
      ≡ map reserved_liability (
          select_where
            (λ s. is_liability tenant scope s && not (may_move payer id s))
            l.reservations)
        ++ map settled_liability (
            select_where
              (is_usage_of tenant scope from)
              (l.usage ++ stored_record now.database u ∷ []))
unfolding settle liabilities transition
settle-liabilities payer id actual new now l r u l' tenant scope from found was h =
    let (units, _, h₁) = ok_of_bind (unit_map actual) _ h in
    let (row, found', h₂) = ok_of_bind (get_reservation payer id l) _ h₁ in
    let row_is : row ≡ r = cc (sym found' ∙ found) in
    elim (settle_by_lem row.state payer id new now units row l u l' h₂) [
      | inl (done, evidence, same) ↦ absurd (cc (sym done ∙ ap (λ x. x.state) row_is ∙ was))
      | inr (was', first) ↦ rw first.ledger (
          ap
            (λ rows.
              map reserved_liability rows
              ++ map settled_liability (
                  select_where (is_usage_of tenant scope from)
                    (l.usage ++ stored_record now.database u ∷ [])))
            (select_where-dropped (is_liability tenant scope) (may_move payer id)
              (moved_to settled now.database) l.reservations
              (is_liability-settled payer id tenant scope now.database)))
    ]

not_none : (o : Option ℕ) → o ≢ none → is_absent o ≡ false
not_none none h = absurd (h refl)
not_none (some t) h = refl

not_released : (s : State) → s ≢ State.released → is_released s ≡ false
not_released State.released h = absurd (h refl)
not_released State.held h = refl
not_released State.settled h = refl
not_released State.unknown h = refl

release-refused :
    (tenant id : String) (now : ℕ) (l : Ledger) (s : Reservation)
    → get_reservation tenant id l ≡ ok s
    → s.dispatched_at ≢ none
    → s.state ≢ State.released
    → release_undispatched tenant id now l ≡ err reservation_state
unfolding release_undispatched release_by
release-refused tenant id now l s found sent kept =
    let stamped = not_none s.dispatched_at sent in
    let standing = not_released s.state kept in
    rw (release_undispatched, found, release_by, standing) (ground (arith, stamped))

pub stamped-found :
    (tenant id : String) (now : ℕ) (l : Ledger) (r : Reservation)
    → get_reservation tenant id l ≡ ok r
    → (s : Reservation) × (get_reservation tenant id (stamp_dispatched tenant id now l) ≡ ok s)
      × (s.dispatched_at ≢ none)
      × (s.state ≡ r.state)
      × (s.price ≡ r.price)
unfolding stamp_dispatched
stamped-found tenant id now l r e =
    let found = get_reservation-find tenant id l e in
    let canonical = find_where-holds (is_canonical tenant id) l.reservations found in
    let g : Reservation → Bool = λ x. is_row_of tenant id x && is_absent x.dispatched_at in
    let after =
      find_where-update_where (is_canonical tenant id) g
        (λ x. record x { dispatched_at = some now }) l.reservations (λ s. refl) found in
    elim (Bool-cases (g r)) [
      | inl stamped ↦ (
        record r { dispatched_at = some now },
        find-get_reservation tenant id (stamp_dispatched tenant id now l) (after ∙ rw stamped refl),
        λ d. cc d,
        refl,
        refl,
      )
      | inr before ↦ (
        r,
        find-get_reservation tenant id (stamp_dispatched tenant id now l) (after ∙ rw before refl),
        λ d.
            let absent : is_absent r.dispatched_at ≡ true = rw d refl in
            ground (arith, canonical, absent, before),
        refl,
        refl,
      )
    ]

module _ (text_before : String → String → Bool) (month_start : ℕ → ℕ) where
  -- Once a reservation that was not released is marked as dispatched, no call releases it: after any
  -- sequence of calls it is there, not released, and a release is refused.
  pub dispatched-stays :
      (tenant id : String) (now now' : ℕ) (l l' : Ledger) (r : Reservation) (cs : List Call)
      → get_reservation tenant id l ≡ ok r
      → r.state ≢ State.released
      → mark_dispatched tenant id now l ≡ ok l'
      → (s : Reservation) × (get_reservation tenant id (run text_before month_start cs l') ≡ ok s)
        × (s.state ≢ State.released)
        × (release_undispatched tenant id now' (run text_before month_start cs l')
            ≡ err reservation_state)
  unfolding mark_dispatched
  dispatched-stays tenant id now now' l l' r cs e kept h =
      let (row, _, done) = ok_of_bind (get_reservation tenant id l) _ h in
      let l_is : l' ≡ stamp_dispatched tenant id now l = cc done in
      let (r', found, sent, same, _) = stamped-found tenant id now l r e in
      let (s, found', moves) =
        run-Moves text_before month_start tenant id cs l' r' (rw l_is found) in
      let still : s.dispatched_at ≢ none = λ d. sent (moves.dispatched d) in
      let standing : s.state ≢ State.released = λ gone. elim (moves.released gone) [
        | inl was ↦ kept (sym same ∙ was)
        | inr never ↦ sent never
      ] in
      (
        s,
        found',
        standing,
        release-refused tenant id now' (run text_before month_start cs l') s found' still standing,
      )
