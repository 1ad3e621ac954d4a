-- ===== src/Billing/Reserve/Repeat.antt =====
-- A settlement that is repeated: `Settle` of internal/billing/service.go once the usage is recorded.
use mini_enclava_go.Common.{
  ℕ, ◌≡◌, refl, sym, ◌∙◌, inl, inr, Bool, true, false, String, eq_iff, List, [], ◌∷◌, ◌++◌, Option,
  none, some, ok, err, ok_of_bind, arith, any_where, find_where, find_where-added,
  find_where-append,
}
use mini_enclava_go.Common.Int64.{ℤ}
use mini_enclava_go.Billing.Types.{Result, Units, Usage}
use mini_enclava_go.Billing.Charge.{unit_map}
use mini_enclava_go.Billing.Ledger.{
  Clock, State, settled, Reservation, UsageRecord, Ledger, get_reservation, transition,
  get_usage_record, is_usage_for, stamp_dispatched, or_not_found,
}
use mini_enclava_go.Billing.Reserve.{
  settle, settle_by, usage_of, mark_dispatched, release_undispatched,
}
use mini_enclava_go.Billing.Reserve.Calls.{
  Call, reserves, settles, marks_unknown, marks_dispatched, releases, call, run, run-Moves,
  stored_record, mark_unknown_lem, release_by_lem, reserve_lem, after_value, after_ledger,
}
use mini_enclava_go.Billing.Reserve.Settled.{transition-found, settled-found, settle_by_lem}

settle-again :
    (tenant id : String) (actual : Usage) (new : String) (now : Clock) (l : Ledger) (units : Units)
    (s : Reservation) (u : UsageRecord)
    → unit_map actual ≡ ok units
    → get_reservation tenant id l ≡ ok s
    → s.state ≡ State.settled
    → get_usage_record tenant id l ≡ ok u
    → settle tenant id actual new now l ≡ ok (u, l)
unfolding settle settle_by
settle-again tenant id actual new now l units s u counted found done evidence =
    rw (settle, counted, found, done, settle_by, evidence) refl

-- The evidence of a first settlement is found.
pub usage-found :
    (tenant id new : String) (now t : ℕ) (units : Units) (amount : ℤ) (res : Reservation)
    (l l' : Ledger)
    → any_where (is_usage_for tenant id) l.usage ≡ false
    → l'.usage ≡ l.usage ++ stored_record t (usage_of tenant id new now units amount res) ∷ []
    → get_usage_record tenant id l'
      ≡ ok (stored_record t (usage_of tenant id new now units amount res))
unfolding get_usage_record
usage-found tenant id new now t units amount res l l' first table =
    let u = stored_record t (usage_of tenant id new now units amount res) in
    let mine : is_usage_for tenant id u ≡ true =
      ground (arith, eq_iff tenant tenant, eq_iff id id) in
    rw (get_usage_record, table, find_where-added (is_usage_for tenant id) l.usage u first mine)
      refl

found_usage : (o : Option UsageRecord) (u : UsageRecord) → or_not_found o ≡ ok u → o ≡ some u
found_usage none u h = cc h
found_usage (some v) u h = cc h

-- The usage record of a probe stays where it is.
module _ (p : UsageRecord → Bool) (u : UsageRecord) where
  abbrev IsRecorded : Ledger → Type 0
  IsRecorded l = find_where p l.usage ≡ some u

  after_value-IsRecorded :
      {A : Type 0} (l : Ledger) (result : Result (A × Ledger))
      → IsRecorded l
      → ((a : A) (l' : Ledger) → result ≡ ok (a, l') → IsRecorded l')
      → IsRecorded (after_value l result)
  after_value-IsRecorded l (ok (a, l')) e h = h a l' refl
  after_value-IsRecorded l (err x) e h = e

  after_ledger-IsRecorded :
      (l : Ledger) (result : Result Ledger)
      → IsRecorded l
      → ((l' : Ledger) → result ≡ ok l' → IsRecorded l')
      → IsRecorded (after_ledger l result)
  after_ledger-IsRecorded l (ok l') e h = h l' refl
  after_ledger-IsRecorded l (err x) e h = e

  settle-IsRecorded :
      (payer reservation : String) (actual : Usage) (new : String) (now : Clock) (l : Ledger)
      (v : UsageRecord) (l' : Ledger)
      → settle payer reservation actual new now l ≡ ok (v, l')
      → IsRecorded l
      → IsRecorded l'
  unfolding settle transition
  settle-IsRecorded payer reservation actual new now l v l' h e =
      let (units, _, h₁) = ok_of_bind (unit_map actual) _ h in
      let (row, found, h₂) = ok_of_bind (get_reservation payer reservation l) _ h₁ in
      elim (settle_by_lem row.state payer reservation new now units row l v l' h₂) [
        | inl (done, evidence, same) ↦ rw same e
        | inr (was, first) ↦
            rw first.ledger (find_where-append p l.usage (stored_record now.database v ∷ []) e)
      ]

  release_undispatched-IsRecorded :
      (mover reservation : String) (now : ℕ) (l l' : Ledger)
      → release_undispatched mover reservation now l ≡ ok l'
      → IsRecorded l
      → IsRecorded l'
  unfolding release_undispatched transition
  release_undispatched-IsRecorded mover reservation now l l' h e =
      let (row, found, h₁) = ok_of_bind (get_reservation mover reservation l) _ h in
      elim (release_by_lem row mover reservation now l l' h₁) [
        | inl same ↦ rw same e
        | inr (never, moved) ↦ rw moved e
      ]

  mark_dispatched-IsRecorded :
      (mover reservation : String) (now : ℕ) (l l' : Ledger)
      → mark_dispatched mover reservation now l ≡ ok l'
      → IsRecorded l
      → IsRecorded l'
  unfolding mark_dispatched stamp_dispatched
  mark_dispatched-IsRecorded mover reservation now l l' h e =
      let (row, found, done) = ok_of_bind (get_reservation mover reservation l) _ h in
      let same : stamp_dispatched mover reservation now l ≡ l' = cc done in rw (sym same) e

module _ (text_before : String → String → Bool) (month_start : ℕ → ℕ) where
  call-IsRecorded :
      (p : UsageRecord → Bool) (u : UsageRecord) (c : Call) (l : Ledger)
      → IsRecorded p u l
      → IsRecorded p u (call text_before month_start c l)
  unfolding call transition
  call-IsRecorded p u (reserves payer req new now) l e =
      after_value-IsRecorded p u l _ e (λ res l' h.
        let d = reserve_lem text_before month_start payer req new now l res l' h in rw d.ledger e)
  call-IsRecorded p u (settles payer reservation actual new now) l e =
      after_value-IsRecorded p u l _ e
        (λ v l' h. settle-IsRecorded p u payer reservation actual new now l v l' h e)
  call-IsRecorded p u (marks_unknown mover reservation now) l e =
      after_ledger-IsRecorded p u l _ e
        (λ l' h. rw (mark_unknown_lem mover reservation now l l' h) e)
  call-IsRecorded p u (marks_dispatched mover reservation now) l e =
      after_ledger-IsRecorded p u l _ e
        (λ l' h. mark_dispatched-IsRecorded p u mover reservation now l l' h e)
  call-IsRecorded p u (releases mover reservation now) l e =
      after_ledger-IsRecorded p u l _ e
        (λ l' h. release_undispatched-IsRecorded p u mover reservation now l l' h e)

  run-IsRecorded :
      (p : UsageRecord → Bool) (u : UsageRecord) (cs : List Call) (l : Ledger)
      → IsRecorded p u l
      → IsRecorded p u (run text_before month_start cs l)
  unfolding run
  run-IsRecorded p u [] l e = e
  run-IsRecorded p u (c ∷ cs) l e =
      run-IsRecorded p u cs (call text_before month_start c l) (call-IsRecorded p u c l e)

  run-settle :
      (tenant id : String) (actual : Usage) (units : Units) (new : String) (now : Clock)
      (cs : List Call) (l : Ledger) (s : Reservation) (u : UsageRecord)
      → unit_map actual ≡ ok units
      → get_reservation tenant id l ≡ ok s
      → s.state ≡ State.settled
      → get_usage_record tenant id l ≡ ok u
      → settle tenant id actual new now (run text_before month_start cs l)
        ≡ ok (u, run text_before month_start cs l)
  unfolding get_usage_record
  run-settle tenant id actual units new now cs l s u counted found done evidence =
      let (t, found', moves) = run-Moves text_before month_start tenant id cs l s found in
      let still : t.state ≡ State.settled = elim moves.state [
        | inl same ↦ same ∙ done
        | inr was ↦ cc (sym was ∙ done)
      ] in
      let recorded =
        run-IsRecorded (is_usage_for tenant id) u cs l
          (found_usage (find_where (is_usage_for tenant id) l.usage) u evidence) in
      settle-again tenant id actual new now (run text_before month_start cs l) units t u counted
        found' still (rw recorded refl)

  -- Settled is settled once: after a settlement that succeeded and any calls that follow it, a
  -- settlement of the same reservation with any usage that is well formed returns the evidence that
  -- the first one returned, as the table has it (it was created at some time of the database), and
  -- changes nothing.
  pub settle-once :
      (tenant id : String) (actual : Usage) (new : String) (now : Clock) (l : Ledger)
      (u : UsageRecord) (l' : Ledger) (cs : List Call) (actual' : Usage) (units' : Units)
      (new' : String) (now' : Clock)
      → settle tenant id actual new now l ≡ ok (u, l')
      → unit_map actual' ≡ ok units'
      → (t : ℕ) × (settle tenant id actual' new' now' (run text_before month_start cs l')
          ≡ ok (record u { created_at = t }, run text_before month_start cs l'))
  unfolding settle
  settle-once tenant id actual new now l u l' cs actual' units' new' now' h counted =
      let (units, _, h₁) = ok_of_bind (unit_map actual) _ h in
      let (row, found, h₂) = ok_of_bind (get_reservation tenant id l) _ h₁ in
      elim (settle_by_lem row.state tenant id new now units row l u l' h₂) [
        | inl (done, evidence, same) ↦ (
          u.created_at,
          rw same (
              run-settle tenant id actual' units' new' now' cs l row u counted found done evidence),
        )
        | inr (was, first) ↦
            let (s, found', done) =
              transition-found tenant id settled now.database l row found was in
            (
              now.database,
              run-settle tenant id actual' units' new' now' cs l' s (stored_record now.database u)
                  counted (settled-found tenant id new now units row l u l' first found') done
                  (rw first.evidence (
                    usage-found tenant id new now.service now.database units first.amount row l l'
                      first.first (rw (first.ledger, first.evidence) refl))),
            )
      ]
