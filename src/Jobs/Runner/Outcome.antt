-- ===== src/Jobs/Runner/Outcome.antt =====
-- The status that the runner leaves.
use mini_enclava_go.Common.{
  ℕ, ◌≡◌, refl, inl, inr, Bool, true, not, String, List, [], ◌∷◌, none, some, if◌then◌else◌,
  any_where, find_where, arith, Bool-cases,
}
use mini_enclava_go.Common.Int64.{ℤ}
use mini_enclava_go.Jobs.Types.{
  Status, succeeded, cancelled, queued, failed, unknown, JobRow, Store, Lease, is_null,
}
use mini_enclava_go.Jobs.Repo.{
  holds, is_open, complete_job, fail_job, release_job, mark_unknown_job, cancel_requested,
  completed, failed_row, released, unknown_row,
}
use mini_enclava_go.Jobs.Machine.{SameKey, after}
use mini_enclava_go.Jobs.Machine.Keys.{AreDistinct, Has, Has-unique, Has-any_where, is_job-keys}
use mini_enclava_go.Jobs.Machine.Fencing.{holds-is_job}
use mini_enclava_go.Jobs.Machine.Grant.{update_where-Has}
use mini_enclava_go.Jobs.Service.{Claim, fail, give_up, may_retry}
use mini_enclava_go.Jobs.Runner.{HandlerEnd, translate, is_wanted}

-- The status after each way in which a handler ends, for a job that was asked to stop or not.
abbrev pub next_status : Claim → JobRow → HandlerEnd → Status
next_status c r HandlerEnd.returned = if is_null r.cancel_requested_at then succeeded else cancelled
next_status c r HandlerEnd.interrupted =
    if is_null r.cancel_requested_at then (if c.dispatched then unknown else queued) else cancelled
next_status c r (HandlerEnd.broke cause class) =
    if may_retry c.granted class then queued else failed

-- The row r becomes s in st.
abbrev pub Becomes : JobRow → Status → Store → Type 0
Becomes r status st =
    (s : JobRow) × Has s st.jobs × SameKey r s × (s.status ≡ status) × (s.lease_owner ≡ none)

find_where-Has :
    (p : JobRow → Bool) (rows : List JobRow)
    → any_where p rows ≡ true
    → (r : JobRow) × (find_where p rows ≡ some r) × Has r rows × (p r ≡ true)
unfolding find_where any_where
find_where-Has p [] h = cc
find_where-Has p (r ∷ rows) h = elim (Bool-cases (p r)) [
  | inl selected ↦ (r, rw selected refl, inl refl, selected)
  | inr other ↦
      let (s, e, hs, hold) = find_where-Has p rows (ground arith) in (s, rw other e, inr hs, hold)
]

holds_unique :
    (l : Lease) (r s : JobRow) (rows : List JobRow)
    → AreDistinct rows
    → Has r rows
    → Has s rows
    → holds l r ≡ true
    → holds l s ≡ true
    → s ≡ r
holds_unique l r s rows d hr hs e e' =
    let keys = is_job-keys l.tenant_id l.job_id r (holds-is_job l r e) in
    Has-unique r s rows d hr hs (rw (keys.0, keys.1) (holds-is_job l s e'))

module _ (l : Lease) (attempt : String) (r : JobRow) (st : Store) (has : Has r st.jobs)
    (held : holds l r ≡ true)
    (is_live : any_where (is_open l.tenant_id attempt) st.attempts ≡ true) where
  probe : any_where (holds l) st.jobs ≡ true
  probe = Has-any_where (holds l) r st.jobs has held

  complete_job-Becomes :
      (result : String) (now : ℕ) (status : Status)
      → (if is_null r.cancel_requested_at then succeeded else cancelled) ≡ status
      → Becomes r status (after st (complete_job l attempt result now st))
  unfolding complete_job completed
  complete_job-Becomes result now status e =
      rw (complete_job, probe, is_live)
        (
          completed now result r,
          update_where-Has (holds l) (completed now result) r st.jobs has held,
          (refl, refl, refl),
          e,
          refl,
        )

  fail_job-Becomes :
      (retry : Bool) (not_before : ℕ) (error : String) (now : ℕ)
      → Becomes r
          (if retry then queued else failed)
          (after st (fail_job l attempt retry not_before error now st))
  unfolding fail_job failed_row
  fail_job-Becomes retry not_before error now =
      rw (fail_job, probe, is_live)
        (
          failed_row retry not_before error now r,
          update_where-Has (holds l) (failed_row retry not_before error now) r st.jobs has held,
          (refl, refl, refl),
          refl,
          refl,
        )

  release_job-Becomes : (now : ℕ) → Becomes r queued (after st (release_job l attempt now st))
  unfolding release_job released
  release_job-Becomes now =
      rw (release_job, probe)
        (
          released r,
          update_where-Has (holds l) released r st.jobs has held,
          (refl, refl, refl),
          refl,
          refl,
        )

  mark_unknown_job-Becomes :
      (error : String) (now : ℕ)
      → Becomes r unknown (after st (mark_unknown_job l attempt error now st))
  unfolding mark_unknown_job unknown_row
  mark_unknown_job-Becomes error now =
      rw (mark_unknown_job, probe, is_live)
        (
          unknown_row now error r,
          update_where-Has (holds l) (unknown_row now error) r st.jobs has held,
          (refl, refl, refl),
          refl,
          refl,
        )

cancel_requested-row :
    (l : Lease) (r : JobRow) (st : Store)
    → AreDistinct st.jobs
    → Has r st.jobs
    → holds l r ≡ true
    → is_wanted (cancel_requested l st) ≡ not (is_null r.cancel_requested_at)
unfolding cancel_requested
cancel_requested-row l r st d has held =
    let (s, e, hs, hold) =
      find_where-Has (holds l) st.jobs (Has-any_where (holds l) r st.jobs has held) in
    let same = holds_unique l r s st.jobs d has hs held hold in rw (cancel_requested, e, same) refl

-- Where the keys of the table are distinct, the lease of a claim holds a row, and its attempt is open:
-- the runner leaves that row without an owner, and succeeded, cancelled, unknown, queued or failed by
-- how the handler ended, whether the job was asked to stop, whether the attempt was dispatched, and
-- whether the error may be tried again.
pub translate-Becomes :
    (error_doc : String → Bool → String) (base : ℤ) (c : Claim) (result : String) (how : HandlerEnd)
    (now : ℕ) (st : Store) (r : JobRow)
    → AreDistinct st.jobs
    → Has r st.jobs
    → holds c.granted.lease r ≡ true
    → any_where (is_open c.granted.lease.tenant_id c.granted.attempt_id) st.attempts ≡ true
    → Becomes r (next_status c r how) (translate error_doc base c result how now st)
unfolding translate fail give_up
translate-Becomes error_doc base c result HandlerEnd.returned now st r d has held is_live =
    complete_job-Becomes c.granted.lease c.granted.attempt_id r st has held is_live result now _
      refl
translate-Becomes error_doc base c result (HandlerEnd.broke cause class) now st r d has held
      is_live =
    fail_job-Becomes c.granted.lease c.granted.attempt_id r st has held is_live _ _ _ now
translate-Becomes error_doc base c result HandlerEnd.interrupted now st r d has held is_live =
    let wanted = cancel_requested-row c.granted.lease r st d has held in
    elim (Bool-cases (is_null r.cancel_requested_at)) [
      | inl quiet ↦ elim (Bool-cases c.dispatched) [
        | inl dispatched ↦
            rw (translate, wanted, quiet, dispatched)
              (mark_unknown_job-Becomes c.granted.lease c.granted.attempt_id r st has held is_live _
                now)
        | inr waiting ↦
            rw (translate, wanted, quiet, waiting)
              (release_job-Becomes c.granted.lease c.granted.attempt_id r st has held is_live now)
      ]
      | inr asked ↦
          rw (translate, wanted, asked)
            (complete_job-Becomes c.granted.lease c.granted.attempt_id r st has held is_live result
              now cancelled (rw asked refl))
    ]
