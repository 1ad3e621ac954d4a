-- ===== src/Billing/Ledger/Canonical.antt =====
-- The canonical row of a reservation, which `GetReservationForUpdate` of
-- internal/store/postgres/billing_repo.go reads, through the statements that change the table.
use mini_enclava_go.Common.{
  ℕ, ◌≡◌, refl, sym, ◌∙◌, ◌⊎◌, inl, inr, Bool, true, false, ◌&&◌, String, eq_iff, List, [], ◌∷◌,
  ◌++◌, Option, none, some, ok, err, arith, Bool-cases, find_where, find_where-update_where,
  find_where-append, find_where-holds,
}
use mini_enclava_go.Billing.Types.{invalid}
use mini_enclava_go.Billing.Ledger.{
  State, Reservation, Ledger, is_canonical, is_row_of, is_held, is_absent, may_move, moved_to,
  transition, stamp_dispatched, get_reservation, insert_reservations, is_taken, or_not_found,
}

-- How a canonical row may go on: what it was priced and bounded for stays; its state is kept unless
-- it was held; a dispatch is never forgotten; and a row is released only if it was or if it had not
-- been dispatched.
pub record Moves (r s : Reservation) : Type 0 where
  pub price : s.price ≡ r.price
  pub limit : s.limit_amount_micros ≡ r.limit_amount_micros
  pub units : s.units ≡ r.units
  pub subject : s.subject ≡ r.subject
  pub state : (s.state ≡ r.state) ⊎ (r.state ≡ State.held)
  pub dispatched : s.dispatched_at ≡ none → r.dispatched_at ≡ none
  pub released : s.state ≡ State.released → (r.state ≡ State.released) ⊎ (r.dispatched_at ≡ none)

pub Moves-refl : (r : Reservation) → Moves r r
Moves-refl r = record {
  price = refl;
  limit = refl;
  units = refl;
  subject = refl;
  state = inl refl;
  dispatched = λ e. e;
  released = λ e. inl e;
}

pub Moves-trans : (r s t : Reservation) → Moves r s → Moves s t → Moves r t
Moves-trans r s t p q = record {
  price = q.price ∙ p.price;
  limit = q.limit ∙ p.limit;
  units = q.units ∙ p.units;
  subject = q.subject ∙ p.subject;
  state = elim p.state [
    | inl same ↦ elim q.state [
      | inl same' ↦ inl (same' ∙ same)
      | inr was_held ↦ inr (sym same ∙ was_held)
    ]
    | inr was_held ↦ inr was_held
  ];
  dispatched = λ e. p.dispatched (q.dispatched e);
  released = λ e. elim (q.released e) [
    | inl gone ↦ p.released gone
    | inr open_row ↦ inr (p.dispatched open_row)
  ];
}

pub or_not_found_ok : {A : Type 0} (o : Option A) {a : A} → or_not_found o ≡ ok a → o ≡ some a
or_not_found_ok none e = cc e
or_not_found_ok (some b) e = cc e

pub get_reservation-find :
    (tenant id : String) (l : Ledger) {r : Reservation}
    → get_reservation tenant id l ≡ ok r
    → find_where (is_canonical tenant id) l.reservations ≡ some r
unfolding get_reservation
get_reservation-find tenant id l e =
    or_not_found_ok (find_where (is_canonical tenant id) l.reservations) e

pub find-get_reservation :
    (tenant id : String) (l : Ledger) {r : Reservation}
    → find_where (is_canonical tenant id) l.reservations ≡ some r
    → get_reservation tenant id l ≡ ok r
unfolding get_reservation
find-get_reservation tenant id l e = rw (get_reservation, e) refl

is_canonical-keys :
    (tenant id : String) (r : Reservation)
    → is_canonical tenant id r ≡ true
    → (r.tenant_id ≡ tenant) × (r.id.reservation ≡ id)
is_canonical-keys tenant id r h =
    ground (arith, eq_iff r.tenant_id tenant, eq_iff r.id.reservation id)

pub is_held-held : (s : State) → is_held s ≡ true → s ≡ State.held
is_held-held State.held e = refl
is_held-held State.settled e = cc e
is_held-held State.unknown e = cc e
is_held-held State.released e = cc e

-- A transition of some reservation, seen from the canonical row of any: to `released` it needs that
-- the row was not dispatched.
pub transition-Moves :
    (tenant id mover reservation : String) (to : State) (now : ℕ) (l : Ledger) (r : Reservation)
    → get_reservation tenant id l ≡ ok r
    → ((to ≡ State.released) → get_reservation mover reservation l ≡ ok r → r.dispatched_at ≡ none)
    → (s : Reservation) × (get_reservation tenant id (transition mover reservation to now l).1
        ≡ ok s)
      × Moves r s
unfolding transition
transition-Moves tenant id mover reservation to now l r e may =
    let found = get_reservation-find tenant id l e in
    let (keys, key) =
      is_canonical-keys tenant id r
        (find_where-holds (is_canonical tenant id) l.reservations found) in
    let after =
      find_where-update_where (is_canonical tenant id) (may_move mover reservation)
        (moved_to to now) l.reservations (λ s. refl) found in
    elim (Bool-cases (may_move mover reservation r)) [
      | inr other ↦ (
        r,
        find-get_reservation tenant id (transition mover reservation to now l).1
            (after ∙ rw other refl),
        Moves-refl r,
      )
      | inl moved ↦
          let was : r.state ≡ State.held = is_held-held r.state (ground (arith, moved)) in
          let mover_is : mover ≡ tenant = ground (arith, moved, keys, eq_iff r.tenant_id mover) in
          let id_is : reservation ≡ id =
            ground (arith, moved, key, eq_iff r.id.reservation reservation) in
          (
            moved_to to now r,
            find-get_reservation tenant id (transition mover reservation to now l).1
                (after ∙ rw moved refl),
            record {
              price = refl;
              limit = refl;
              units = refl;
              subject = refl;
              state = inr was;
              dispatched = λ d. d;
              released = λ d. inr (may d (rw (mover_is, id_is) e));
            },
          )
    ]

pub stamp_dispatched-Moves :
    (tenant id mover reservation : String) (now : ℕ) (l : Ledger) (r : Reservation)
    → get_reservation tenant id l ≡ ok r
    → (s : Reservation) × (get_reservation tenant id (stamp_dispatched mover reservation now l)
        ≡ ok s)
      × Moves r s
unfolding stamp_dispatched
stamp_dispatched-Moves tenant id mover reservation now l r e =
    let found = get_reservation-find tenant id l e in
    let g : Reservation → Bool = λ x. is_row_of mover reservation x && is_absent x.dispatched_at in
    let after =
      find_where-update_where (is_canonical tenant id) g
        (λ x. record x { dispatched_at = some now }) l.reservations (λ s. refl) found in
    elim (Bool-cases (g r)) [
      | inr other ↦ (
        r,
        find-get_reservation tenant id (stamp_dispatched mover reservation now l)
            (after ∙ rw other refl),
        Moves-refl r,
      )
      | inl stamped ↦ (
        record r { dispatched_at = some now },
        find-get_reservation tenant id (stamp_dispatched mover reservation now l)
            (after ∙ rw stamped refl),
        record {
          price = refl;
          limit = refl;
          units = refl;
          subject = refl;
          state = inl refl;
          dispatched = λ d. cc d;
          released = λ d. inl d;
        },
      )
    ]

-- A row as it is inserted.
abbrev pub inserted_row : ℕ → Reservation → Reservation
inserted_row now x = record x { state = State.held; created_at = now }

-- A batch of rows is inserted where none of their keys is taken.
pub insert_reservations-taken :
    (now : ℕ) (x : Reservation) (rows table : List Reservation)
    → is_taken x table ≡ true
    → insert_reservations now (x ∷ rows) table ≡ err invalid
unfolding insert_reservations
insert_reservations-taken now x rows table h = rw h refl

pub insert_reservations-free :
    (now : ℕ) (x : Reservation) (rows table : List Reservation)
    → is_taken x table ≡ false
    → insert_reservations now (x ∷ rows) table
      ≡ insert_reservations now rows (table ++ inserted_row now x ∷ [])
unfolding insert_reservations
insert_reservations-free now x rows table h = rw h refl

-- New rows come after the old ones.
pub insert_reservations-find :
    (now : ℕ) (p : Reservation → Bool) (rows table table' : List Reservation) {r : Reservation}
    → find_where p table ≡ some r
    → insert_reservations now rows table ≡ ok table'
    → find_where p table' ≡ some r
insert_reservations-find now p [] table table' e h =
    unfold insert_reservations in (let same : table ≡ table' = cc h in rw (sym same) e)
insert_reservations-find now p (x ∷ rows) table table' {r} e h =
    elim (Bool-cases (is_taken x table)) [
      | inl taken ↦ cc (sym (insert_reservations-taken now x rows table taken) ∙ h)
      | inr free ↦
          insert_reservations-find now p rows (table ++ inserted_row now x ∷ []) table'
            (find_where-append p table (inserted_row now x ∷ []) e)
            (sym (insert_reservations-free now x rows table free) ∙ h)
    ]
