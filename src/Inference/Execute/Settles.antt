-- ===== src/Inference/Execute/Settles.antt =====
-- What an attempt of internal/inference/service.go leaves of a reservation that is held, by the reply of
-- the endpoint.
use mini_enclava_go.Common.{
  ◌≡◌, refl, sym, ap, ◌++◌, subst, ◌∙◌, ◌⊎◌, inl, inr, Bool, true, false, String, List, [], ◌∷◌,
  Option, none, some, ok, err, ◌>>=◌, ok_of_bind, arith, Bool-cases, find_where, any_where,
  find_where-holds,
}
use mini_enclava_go.Common.Int64.{ℤ}
use mini_enclava_go.Billing.Types.{Subject, Usage, Units, PriceSnapshot}
use mini_enclava_go.Billing.Types as Billing
use mini_enclava_go.Billing.Charge.{unit_map, charge}
use mini_enclava_go.Billing.Ledger.{
  Clock, State, settled, unknown, released, Reservation, UsageRecord, Ledger, get_reservation,
  transition, is_canonical, may_move, stamp_dispatched, is_usage_for, get_usage_record,
  insert_usage_record,
}
use mini_enclava_go.Billing.Ledger.Canonical.{get_reservation-find}
use mini_enclava_go.Billing.Reserve.{
  settle, mark_unknown, mark_dispatched, release_undispatched, release_by, settle_by, settle_held,
  usage_of,
}
use mini_enclava_go.Billing.Reserve.Calls.{stored_record, SettledHeld}
use mini_enclava_go.Billing.Reserve.Repeat.{usage-found}
use mini_enclava_go.Billing.Reserve.Settled.{
  transition-found, settle_by_lem, settled-found, stamped-found,
}
use mini_enclava_go.Inference.Execute.{
  Reply, failed, refused, answered, Faults, or_no_usage, fail_attempt, release_attempt,
  settle_reservation, after_reply, attempt,
}

-- The usage that an attempt settles for its reply: none where its outcome is unknown.
abbrev pub definite_usage : Bool → Reply → Option Usage
definite_usage stream failed = none
definite_usage true (refused usage) = none
definite_usage false (refused usage) = some (or_no_usage usage)
definite_usage true (answered false usage) = none
definite_usage true (answered true usage) = usage
definite_usage false (answered terminal usage) = usage

module _ (tenant id : String) (price : PriceSnapshot) (recorded : List UsageRecord)
    (after : Ledger) where
  -- The evidence of a usage, charged under the price.
  abbrev pub IsCharged : Usage → Type 0
  IsCharged usage =
      (u : UsageRecord) × (get_usage_record tenant id after ≡ ok u)
      × (unit_map usage ≡ ok u.units)
      × (charge u.units price ≡ ok u.amount_micros)

  -- Why a settlement is refused: usage was recorded before, or this one cannot be counted or charged.
  abbrev pub IsRefused : Usage → Type 0
  IsRefused usage =
      (any_where (is_usage_for tenant id) recorded ≡ true)
      ⊎ (((e : Billing.Error) × (unit_map usage ≡ err e))
          ⊎ ((units : Units) × (e : Billing.Error) × (unit_map usage ≡ ok units)
              × (charge units price ≡ err e)))

  abbrev pub Settles : Option Usage → State → Type 0
  Settles none s = s ≡ State.unknown
  Settles (some usage) s =
      ((s ≡ State.settled) × IsCharged usage) ⊎ ((s ≡ State.unknown) × IsRefused usage)

  -- The states in which an attempt with a reply may leave its reservation.
  abbrev pub Resolves : Bool → Option Reply → State → Type 0
  Resolves stream none s = s ≡ State.released
  Resolves stream (some reply) s = Settles (definite_usage stream reply) s

-- A reservation that is there in a state of P.
abbrev pub IsLeft : String → String → Ledger → (State → Type 0) → Type 0
IsLeft tenant id l P = (s : Reservation) × (get_reservation tenant id l ≡ ok s) × P s.state

abbrev pub no_faults : Faults
no_faults = record {
  encode = false;
  acquire = false;
  mark_dispatched = false;
  settle = false;
  mark_unknown = false;
  release = false;
}

any_where-found :
    {A : Type 0} (p q : A → Bool) (xs : List A) {x : A}
    → find_where p xs ≡ some x
    → q x ≡ true
    → any_where q xs ≡ true
unfolding any_where find_where
any_where-found p q [] e h = cc e
any_where-found p q (y ∷ ys) {x} e h = elim (Bool-cases (p y)) [
  | inl here ↦
      let same : some y ≡ some x = sym (rw here refl) ∙ e in
      let y_is : y ≡ x = cc same in rw (y_is, h) refl
  | inr other ↦
      let rest = any_where-found p q ys {x = x} (sym (rw other refl) ∙ e) h in
      rw rest (ground arith)
]

result_cases :
    {A : Type 0} (r : Billing.Result A)
    → ((a : A) × (r ≡ ok a)) ⊎ ((e : Billing.Error) × (r ≡ err e))
result_cases (ok a) = inl (a, refl)
result_cases (err e) = inr (e, refl)

first_usage :
    (tenant id new : String) (now : Clock) (units : Units) (row : Reservation) (l : Ledger)
    (u : UsageRecord) (l' : Ledger) (first : SettledHeld tenant id new now units row l u l')
    → l'.usage
      ≡ l.usage
        ++ stored_record now.database (usage_of tenant id new now.service units first.amount row)
          ∷ []
first_usage tenant id new now units row l u l' first = rw (first.ledger, first.evidence) refl

pair_path : {A B : Type 0} {a a' : A} {b b' : B} → a ≡ a' → b ≡ b' → ◌≡◌ {A = A × B} (a, b) (a', b')
pair_path e f = cc (e, f)

module _ (tenant id : String) (now : Clock) where
  moved :
      (l : Ledger) (r : Reservation)
      → get_reservation tenant id l ≡ ok r
      → r.state ≡ State.held
      → any_where (may_move tenant id) l.reservations ≡ true
  moved l r found was =
      let row = get_reservation-find tenant id l found in
      let canonical = find_where-holds (is_canonical tenant id) l.reservations row in
      let moves : may_move tenant id r ≡ true = ground (arith, canonical, was) in
      any_where-found (is_canonical tenant id) (may_move tenant id) l.reservations row moves

  moves_unknown :
      (l : Ledger)
      → any_where (may_move tenant id) l.reservations ≡ true
      → fail_attempt tenant id no_faults now.database l
        ≡ (transition tenant id unknown now.database l).1
  unfolding mark_unknown transition
  moves_unknown l there = rw there refl

  releases :
      (l : Ledger) (r : Reservation)
      → get_reservation tenant id l ≡ ok r
      → r.state ≡ State.held
      → r.dispatched_at ≡ none
      → release_attempt tenant id no_faults now.database l
        ≡ (transition tenant id released now.database l).1
  unfolding release_undispatched release_by
  releases l r found was fresh = rw (found, release_by, was, fresh) refl

  opened :
      (new : String) (usage : Usage) (l : Ledger) {x : UsageRecord × Ledger}
      → settle tenant id usage new now l ≡ ok x
      → (unit_map usage >>= λ units.
          get_reservation tenant id l >>= λ res. settle_by res.state tenant id new now units res l)
        ≡ ok x
  unfolding settle
  opened new usage l done = done

  settles :
      (new : String) (usage : Usage) (l : Ledger) (u : UsageRecord) (l' : Ledger)
      → settle tenant id usage new now l ≡ ok (u, l')
      → settle_reservation tenant id no_faults new now (some usage) l ≡ l'
  unfolding settle_reservation
  settles new usage l u l' done = rw (settle_reservation, done) refl

  settles_not :
      (new : String) (usage : Usage) (l : Ledger) (e : Billing.Error)
      → settle tenant id usage new now l ≡ err e
      → settle_reservation tenant id no_faults new now (some usage) l
        ≡ fail_attempt tenant id no_faults now.database l
  unfolding settle_reservation
  settles_not new usage l e done = rw (settle_reservation, done) refl

  -- Nothing else refuses the settlement of a held reservation.
  settle-succeeds :
      (new : String) (usage : Usage) (l : Ledger) (r : Reservation) (units : Units) (amount : ℤ)
      → get_reservation tenant id l ≡ ok r
      → r.state ≡ State.held
      → unit_map usage ≡ ok units
      → charge units r.price ≡ ok amount
      → any_where (is_usage_for tenant id) l.usage ≡ false
      → (x : UsageRecord × Ledger) × (settle tenant id usage new now l ≡ ok x)
  unfolding settle settle_by settle_held insert_usage_record transition
  settle-succeeds new usage l r units amount found was counted charged free =
      let there = moved l r found was in
      let u = usage_of tenant id new now.service units amount r in
      (
        (
          u,
          record (transition tenant id settled now.database l).1 {
            usage = l.usage ++ stored_record now.database u ∷ [];
          },
        ),
        rw (settle, counted, found, was, settle_by, settle_held, charged, there, free) refl,
      )

  settle-IsRefused :
      (new : String) (usage : Usage) (l : Ledger) (r : Reservation) (e : Billing.Error)
      → get_reservation tenant id l ≡ ok r
      → r.state ≡ State.held
      → settle tenant id usage new now l ≡ err e
      → (after : Ledger) → IsRefused tenant id r.price l.usage after usage
  settle-IsRefused new usage l r e found was refused_it after =
      elim (result_cases (unit_map usage)) [
        | inr bad ↦ inr (inl bad)
        | inl (units, counted) ↦ elim (result_cases (charge units r.price)) [
          | inr (e', bad) ↦ inr (inr (units, e', counted, bad))
          | inl (amount, charged) ↦ elim (Bool-cases (any_where (is_usage_for tenant id) l.usage)) [
            | inl taken ↦ inl taken
            | inr free ↦
                let (x, done) =
                  settle-succeeds new usage l r units amount found was counted charged free in
                absurd (cc (sym done ∙ refused_it))
          ]
        ]
      ]

  fail_attempt-left :
      (l : Ledger) (r : Reservation)
      → get_reservation tenant id l ≡ ok r
      → r.state ≡ State.held
      → IsLeft tenant id (fail_attempt tenant id no_faults now.database l) (λ s. s ≡ State.unknown)
  fail_attempt-left l r found was =
      rw (moves_unknown l (moved l r found was))
        (transition-found tenant id unknown now.database l r found was)

  release_attempt-left :
      (l : Ledger) (r : Reservation)
      → get_reservation tenant id l ≡ ok r
      → r.state ≡ State.held
      → r.dispatched_at ≡ none
      → IsLeft tenant id
          (release_attempt tenant id no_faults now.database l)
          (λ s. s ≡ State.released)
  release_attempt-left l r found was fresh =
      rw (releases l r found was fresh)
        (transition-found tenant id released now.database l r found was)

  -- What settling some usage leaves.
  abbrev IsSettled : Reservation → Ledger → Ledger → Option Usage → Type 0
  IsSettled r l after usage = IsLeft tenant id after (Settles tenant id r.price l.usage after usage)

  settle-IsSettled :
      (new : String) (usage : Usage) (l : Ledger) (r : Reservation) (u : UsageRecord) (l' : Ledger)
      → get_reservation tenant id l ≡ ok r
      → r.state ≡ State.held
      → settle tenant id usage new now l ≡ ok (u, l')
      → IsSettled r l l' (some usage)
  settle-IsSettled new usage l r u l' found was done =
      let (units, counted, h₁) = ok_of_bind (unit_map usage) _ (opened new usage l done) in
      let (row, found', h₂) = ok_of_bind (get_reservation tenant id l) _ h₁ in
      let row_is : row ≡ r = cc (sym found' ∙ found) in
      elim (settle_by_lem row.state tenant id new now units row l u l' h₂) [
        | inl (over, evidence, same) ↦ absurd (cc (sym over ∙ ap (λ x. x.state) row_is ∙ was))
        | inr (was', first) ↦
            let (s, there, is_settled) =
              transition-found tenant id settled now.database l r found was in
            (
              s,
              settled-found tenant id new now units row l u l' first there,
              inl (
                is_settled,
                (
                  stored_record now.database
                      (usage_of tenant id new now.service units first.amount row),
                  usage-found tenant id new now.service now.database units first.amount row l l'
                      first.first (first_usage tenant id new now units row l u l' first),
                  counted,
                  subst (λ x. charge units x.price ≡ ok first.amount) row_is first.charged,
                ),
              ),
            )
      ]

  settle_reservation-left :
      (new : String) (usage : Option Usage) (l : Ledger) (r : Reservation)
      → get_reservation tenant id l ≡ ok r
      → r.state ≡ State.held
      → IsSettled r l (settle_reservation tenant id no_faults new now usage l) usage
  settle_reservation-left new none l r found was =
      unfold settle_reservation in fail_attempt-left l r found was
  settle_reservation-left new (some usage) l r found was =
      elim (result_cases (settle tenant id usage new now l)) [
        | inl ((u, l'), done) ↦
            subst (λ after. IsSettled r l after (some usage)) (sym (settles new usage l u l' done))
              (settle-IsSettled new usage l r u l' found was done)
        | inr (e, refused_it) ↦
            let (s, there, is_unknown) = fail_attempt-left l r found was in
            subst (λ after. IsSettled r l after (some usage))
              (sym (settles_not new usage l e refused_it))
              (
                s,
                there,
                inr (
                  is_unknown,
                  settle-IsRefused new usage l r e found was refused_it
                      (fail_attempt tenant id no_faults now.database l),
                ),
              )
      ]

  after_reply-definite :
      (stream : Bool) (new : String) (reply : Reply) (l : Ledger)
      → after_reply tenant id stream no_faults new now reply l
        ≡ settle_reservation tenant id no_faults new now (definite_usage stream reply) l
  unfolding after_reply settle_reservation
  after_reply-definite stream new failed l = refl
  after_reply-definite true new (refused usage) l = refl
  after_reply-definite false new (refused usage) l = refl
  after_reply-definite true new (answered false usage) l = refl
  after_reply-definite true new (answered true usage) l = refl
  after_reply-definite false new (answered terminal usage) l = refl

  dispatches :
      (stream : Bool) (new : String) (reply : Reply) (l : Ledger) (r : Reservation)
      → get_reservation tenant id l ≡ ok r
      → attempt tenant id stream no_faults new now (some reply) l
        ≡ settle_reservation tenant id no_faults new now
            (definite_usage stream reply)
            (stamp_dispatched tenant id now.database l)
  unfolding attempt mark_dispatched
  dispatches stream new reply l r found =
      rw (attempt, mark_dispatched, found)
        (after_reply-definite stream new reply (stamp_dispatched tenant id now.database l))

  -- An attempt for a held reservation of some price, where some usage was recorded.
  pub attempt-left :
      (stream : Bool) (new : String) (reply : Option Reply) (l : Ledger) (r : Reservation)
      → get_reservation tenant id l ≡ ok r
      → r.state ≡ State.held
      → r.dispatched_at ≡ none
      → let after = attempt tenant id stream no_faults new now reply l in
        IsLeft tenant id after (Resolves tenant id r.price l.usage after stream reply)
  attempt-left stream new none l r found was fresh =
      unfold attempt in release_attempt-left l r found was fresh
  attempt-left stream new (some reply) l r found was fresh =
      let l' = stamp_dispatched tenant id now.database l in
      let (s, there, sent, same, price) = stamped-found tenant id now.database l r found in
      let usage : l'.usage ≡ l.usage = unfold stamp_dispatched in refl in
      let done =
        settle_reservation-left new (definite_usage stream reply) l' s there (same ∙ was) in
      subst
        (λ after.
          IsLeft tenant id after (Resolves tenant id r.price l.usage after stream (some reply)))
        (sym (dispatches stream new reply l r found))
        (subst
          (λ (p, recorded).
            let after =
              settle_reservation tenant id no_faults new now (definite_usage stream reply) l' in
            IsLeft tenant id after
              (Settles tenant id p recorded after (definite_usage stream reply)))
          (pair_path price usage) done)
