-- ===== src/Jobs/Machine/Refinement.antt =====
-- Each call implements the machine of one job, on every row of the table.
use mini_enclava_go.Common.{
  ℕ, ◌+◌, ◌≡◌, refl, sym, ◌⊎◌, inl, inr, String, Bool, true, false, List, [], ◌∷◌, ◌++◌, Option,
  none, some, ok, err, Each, update_where, any_where, find_where, ◌||◌, arith, Bool-cases,
  Option-cases, if◌then◌else◌,
}
use mini_enclava_go.Jobs.Types.{Status, JobRow, Store, Lease, Result, InsertRecord, AttemptRow}
use mini_enclava_go.Jobs.Machine.{
  Step, quiet, publish, grant, cancel_queued, cancel_running, delete, Evolves, born, moved, Steps,
  here, then', IsBorn, call, after, after_insert, writes, claims, cancels, deletes, inserts,
  Published, Write, extends, reports, dispatches, completes, fails, releases, gives_up, write, Call,
}
use mini_enclava_go.Jobs.Types.{is_null}
use mini_enclava_go.Jobs.Claiming.{
  claim, sweep, grant as grant_row, next_job, older, is_claimable, is_swept, granted,
}
use mini_enclava_go.Jobs.Machine.Keys.{AreDistinct, Has, Has-unique, update_where-AreDistinct}
use mini_enclava_go.Jobs.Enqueue.{insert_job, same_key, fresh_row}
use mini_enclava_go.Jobs.Repo.{
  holds, is_job, extend_lease, write_progress, mark_dispatched, complete_job, fail_job, release_job,
  mark_unknown_job, completed, failed_row, released, unknown_row, cancelled_row, deleted_row,
  may_cancel, may_delete, cancel_job, delete_job,
}

Steps-trans : {r s t : JobRow} → Steps r s → Steps s t → Steps r t
Steps-trans p here = p
Steps-trans p (then' q st) = then' (Steps-trans p q) st

pub Evolves-refl : (rows : List JobRow) → Evolves rows rows
Evolves-refl [] = born tt
Evolves-refl (r ∷ rows) = moved here (Evolves-refl rows)

Evolves-append : (rows new : List JobRow) → Each IsBorn new → Evolves rows (rows ++ new)
Evolves-append [] new h = born h
Evolves-append (r ∷ rows) new h = moved here (Evolves-append rows new h)

IsBorn-Evolves : (new rows : List JobRow) → Each IsBorn new → Evolves new rows → Each IsBorn rows
IsBorn-Evolves [] rows h (born new) = new
IsBorn-Evolves (s ∷ new) [] h e = elim e [ ]
IsBorn-Evolves (s ∷ new) (t ∷ rows) (b, h) (moved p e) =
    ((b.0, b.1, Steps-trans b.2 p), IsBorn-Evolves new rows h e)

pub Evolves-trans : {a b c : List JobRow} → Evolves a b → Evolves b c → Evolves a c
Evolves-trans {b} {c} (born h) e = born (IsBorn-Evolves b c h e)
Evolves-trans (moved p e) (moved q f) = moved (Steps-trans p q) (Evolves-trans e f)

-- An update whose guard allows a step of each row that it selects.
update_where-Evolves_in :
    (p : JobRow → Bool) (f : JobRow → JobRow) (rows : List JobRow)
    → ((r : JobRow) → Has r rows → p r ≡ true → Step r (f r))
    → Evolves rows (update_where p f rows)
unfolding update_where
update_where-Evolves_in p f [] h = born tt
update_where-Evolves_in p f (r ∷ rows) h =
    let rest = update_where-Evolves_in p f rows (λ s hs e. h s (inr hs) e) in
    elim (Bool-cases (p r)) [
      | inl selected ↦ rw selected (moved (then' here (h r (inl refl) selected)) rest)
      | inr other ↦ rw other (moved here rest)
    ]

update_where-Evolves :
    (p : JobRow → Bool) (f : JobRow → JobRow) (rows : List JobRow)
    → ((r : JobRow) → p r ≡ true → Step r (f r))
    → Evolves rows (update_where p f rows)
update_where-Evolves p f rows h = update_where-Evolves_in p f rows (λ r _ e. h r e)

pub holds-running : (l : Lease) (r : JobRow) → holds l r ≡ true → r.status ≡ Status.running
holds-running l r h = ground arith

-- What a write does when it succeeds: a row holds the lease, and every such row, running, is set.
pub record Written (l : Lease) (st st' : Store) : Type 0 where
  pub held : any_where (holds l) st.jobs ≡ true
  pub set : JobRow → JobRow
  pub jobs : st'.jobs ≡ update_where (holds l) set st.jobs
  pub step : (r : JobRow) → r.status ≡ Status.running → Step r (set r)

completed-Published :
    (o : Option ℕ) → Published o (if is_null o then Status.succeeded else Status.cancelled)
completed-Published none = Published.done
completed-Published (some a) = Published.stopped

failed_row-Published :
    (o : Option ℕ) (retry : Bool) → Published o (if retry then Status.queued else Status.failed)
failed_row-Published o true = Published.requeued
failed_row-Published o false = Published.broken

extend_lease-Written :
    (l : Lease) (now : ℕ) (ttl : ℕ) (st st' : Store)
    → extend_lease l now ttl st ≡ ok st'
    → Written l st st'
unfolding extend_lease
extend_lease-Written l now ttl st st' e = record {
  held = ground arith;
  set = λ r. record r { lease_expires_at = some (now + ttl) };
  jobs = ground arith;
  step = λ r h. quiet (refl, refl, refl) refl refl refl refl refl;
}

write_progress-Written :
    (l : Lease) (doc : String) (st st' : Store)
    → write_progress l doc st ≡ ok st'
    → Written l st st'
unfolding write_progress
write_progress-Written l doc st st' e = record {
  held = ground arith;
  set = λ r. record r { progress = doc };
  jobs = ground arith;
  step = λ r h. quiet (refl, refl, refl) refl refl refl refl refl;
}

mark_dispatched-Written :
    (l : Lease) (attempt : String) (st st' : Store)
    → mark_dispatched l attempt st ≡ ok st'
    → Written l st st'
unfolding mark_dispatched
mark_dispatched-Written l attempt st st' e = record {
  held = ground arith;
  set = λ r. record r { dispatched_attempt_id = some attempt };
  jobs = ground arith;
  step = λ r h. quiet (refl, refl, refl) refl refl refl refl refl;
}

complete_job-Written :
    (l : Lease) (attempt : String) (result : String) (now : ℕ) (st st' : Store)
    → complete_job l attempt result now st ≡ ok st'
    → Written l st st'
unfolding complete_job
complete_job-Written l attempt result now st st' e = record {
  held = ground arith;
  set = completed now result;
  jobs = ground arith;
  step = λ r h.
      publish (refl, refl, refl) h (completed-Published r.cancel_requested_at) refl refl refl refl;
}

fail_job-Written :
    (l : Lease) (attempt : String) (retry : Bool) (not_before : ℕ) (error : String) (now : ℕ)
    (st st' : Store)
    → fail_job l attempt retry not_before error now st ≡ ok st'
    → Written l st st'
unfolding fail_job
fail_job-Written l attempt retry not_before error now st st' e = record {
  held = ground arith;
  set = failed_row retry not_before error now;
  jobs = ground arith;
  step = λ r h.
      publish (refl, refl, refl) h (failed_row-Published r.cancel_requested_at retry) refl refl refl
        refl;
}

release_job-Written :
    (l : Lease) (attempt : String) (now : ℕ) (st st' : Store)
    → release_job l attempt now st ≡ ok st'
    → Written l st st'
unfolding release_job
release_job-Written l attempt now st st' e = record {
  held = ground arith;
  set = released;
  jobs = ground arith;
  step = λ r h. publish (refl, refl, refl) h Published.requeued refl refl refl refl;
}

mark_unknown_job-Written :
    (l : Lease) (attempt : String) (error : String) (now : ℕ) (st st' : Store)
    → mark_unknown_job l attempt error now st ≡ ok st'
    → Written l st st'
unfolding mark_unknown_job
mark_unknown_job-Written l attempt error now st st' e = record {
  held = ground arith;
  set = unknown_row now error;
  jobs = ground arith;
  step = λ r h. publish (refl, refl, refl) h Published.lost refl refl refl refl;
}

pub write-Written :
    (l : Lease) (w : Write) (st st' : Store) → write l w st ≡ ok st' → Written l st st'
unfolding write
write-Written l (extends now ttl) st st' e = extend_lease-Written l now ttl st st' e
write-Written l (reports doc) st st' e = write_progress-Written l doc st st' e
write-Written l (dispatches attempt) st st' e = mark_dispatched-Written l attempt st st' e
write-Written l (completes attempt result now) st st' e =
    complete_job-Written l attempt result now st st' e
write-Written l (fails attempt retry not_before error now) st st' e =
    fail_job-Written l attempt retry not_before error now st st' e
write-Written l (releases attempt now) st st' e = release_job-Written l attempt now st st' e
write-Written l (gives_up attempt error now) st st' e =
    mark_unknown_job-Written l attempt error now st st' e

Written-Evolves : (l : Lease) {st st' : Store} → Written l st st' → Evolves st.jobs st'.jobs
Written-Evolves l {st} {st'} w =
    rw w.jobs (update_where-Evolves (holds l) w.set st.jobs (λ r h. w.step r (holds-running l r h)))

-- A result that evolves where it is one.
after-Evolves :
    (st : Store) (result : Result Store)
    → ((st' : Store) → result ≡ ok st' → Evolves st.jobs st'.jobs)
    → Evolves st.jobs (after st result).jobs
after-Evolves st (ok st') h = h st' refl
after-Evolves st (err e) h = Evolves-refl st.jobs

cancelled_row-Step :
    (now : ℕ) (r : JobRow)
    → (r.status ≡ Status.queued) ⊎ (r.status ≡ Status.running)
    → Step r (cancelled_row now r)
unfolding cancelled_row
cancelled_row-Step now r (inl q) =
    cancel_queued (refl, refl, refl) q (ground arith) refl (λ e. ground arith) refl
cancelled_row-Step now r (inr q) =
    cancel_running (refl, refl, refl) q (ground arith) refl (λ e. ground arith) refl

cancel_job-Evolves :
    (tenant id : String) (now : ℕ) (st st' : Store)
    → cancel_job tenant id now st ≡ ok st'
    → Evolves st.jobs st'.jobs
unfolding cancel_job
cancel_job-Evolves tenant id now st st' e =
    let set : st'.jobs ≡ update_where (may_cancel tenant id) (cancelled_row now) st.jobs =
      ground arith in
    rw set (
      update_where-Evolves (may_cancel tenant id) (cancelled_row now) st.jobs
        (λ r h. cancelled_row-Step now r (ground arith)))

delete_job-Evolves :
    (tenant id : String) (now : ℕ) (st st' : Store)
    → delete_job tenant id now st ≡ ok st'
    → Evolves st.jobs st'.jobs
unfolding delete_job
delete_job-Evolves tenant id now st st' e =
    let set : st'.jobs ≡ update_where (may_delete tenant id) (deleted_row now) st.jobs =
      ground arith in
    rw set (
      update_where-Evolves (may_delete tenant id) (deleted_row now) st.jobs
        (λ r h. delete (refl, refl, refl) (λ d. ground arith) refl refl refl (λ d. cc)))

insert_job-Evolves :
    (rec : InsertRecord) (now : ℕ) (st : Store)
    → Evolves st.jobs (after_insert st (insert_job rec now st)).jobs
unfolding insert_job fresh_row
insert_job-Evolves rec now st =
    elim (Bool-cases
      (any_where (same_key rec) st.jobs || any_where (is_job rec.tenant_id rec.id) st.jobs)) [
        | inl refused ↦ rw refused (elim (Option-cases (find_where (same_key rec) st.jobs)) [
          | inl absent ↦ rw absent (Evolves-refl st.jobs)
          | inr (r, found) ↦ rw found (Evolves-refl st.jobs)
        ])
        | inr new ↦ rw new (
            Evolves-append st.jobs (fresh_row rec now ∷ [])
              ((fresh_row rec now, (refl, refl, refl), here), tt))
      ]

older-one : (x : JobRow) (o : Option JobRow) {r : JobRow} → older x o ≡ r → (x ≡ r) ⊎ (o ≡ some r)
unfolding older
older-one x none e = inl e
older-one x (some s) e = ground arith

-- The chosen row is one of the table, and the guard selects it.
pub next_job-Has :
    (p : JobRow → Bool) (rows : List JobRow) {r : JobRow}
    → next_job p rows ≡ some r
    → (p r ≡ true) × Has r rows
unfolding next_job
next_job-Has p [] e = cc
next_job-Has p (x ∷ rows) {r} e = elim (Bool-cases (p x)) [
  | inl selected ↦
      let one : some (older x (next_job p rows)) ≡ some r = ground (arith, selected) in
      elim (older-one x (next_job p rows) (cc one)) [
        | inl same ↦ (rw (sym same) selected, inl same)
        | inr later ↦ let (h, hs) = next_job-Has p rows later in (h, inr hs)
      ]
  | inr other ↦
      let rest : next_job p rows ≡ some r = ground (arith, other) in
      let (h, hs) = next_job-Has p rows rest in (h, inr hs)
]

granted_row-Step :
    (worker : String) (now ttl : ℕ) (attempts : List AttemptRow) (r : JobRow)
    → is_claimable now attempts r ≡ true
    → Step r (granted worker now ttl r)
unfolding granted
granted_row-Step worker now ttl attempts r h =
    grant (refl, refl, refl) (ground arith) (ground arith) (ground arith) refl refl (ground arith)
      (ground arith)

pub sweep-Evolves : (now : ℕ) (st : Store) → Evolves st.jobs (sweep now st).jobs
unfolding sweep
sweep-Evolves now st =
    update_where-Evolves (is_swept now st.attempts) _ st.jobs
      (λ r h. publish (refl, refl, refl) (ground arith) Published.lost refl refl refl refl)

pub sweep-AreDistinct :
    (now : ℕ) (st : Store) → AreDistinct st.jobs → AreDistinct (sweep now st).jobs
unfolding sweep
sweep-AreDistinct now st d =
    update_where-AreDistinct (is_swept now st.attempts) _ (λ r h. (refl, refl, refl)) st.jobs d

-- The key of the chosen row selects that row alone.
grant-Evolves :
    (worker : String) (now ttl : ℕ) (attempts : List AttemptRow) (r : JobRow) (rows : List JobRow)
    → AreDistinct rows
    → next_job (is_claimable now attempts) rows ≡ some r
    → Evolves rows (update_where (is_job r.tenant_id r.id) (granted worker now ttl) rows)
grant-Evolves worker now ttl attempts r rows d e =
    let (h, hr) = next_job-Has (is_claimable now attempts) rows e in
    update_where-Evolves_in (is_job r.tenant_id r.id) (granted worker now ttl) rows
      (λ s hs k. granted_row-Step worker now ttl attempts s (rw (Has-unique r s rows d hr hs k) h))

claim-Evolves :
    (worker : String) (now ttl : ℕ) (attempt : String) (st : Store)
    → AreDistinct st.jobs
    → Evolves st.jobs (claim worker now ttl attempt st).1.jobs
unfolding claim grant_row
claim-Evolves worker now ttl attempt st d =
    let swept = sweep now st in
    elim (Option-cases (next_job (is_claimable now swept.attempts) swept.jobs)) [
      | inl nothing ↦ rw (claim, nothing) (sweep-Evolves now st)
      | inr (r, chosen) ↦
          rw (claim, chosen)
            (Evolves-trans (sweep-Evolves now st) (
              grant-Evolves worker now ttl swept.attempts r swept.jobs (sweep-AreDistinct now st d)
                chosen))
    ]

-- Every call moves every row along the machine.
pub call-Evolves : (c : Call) (st : Store) → AreDistinct st.jobs → Evolves st.jobs (call c st).jobs
unfolding call
call-Evolves (writes l w) st d =
    after-Evolves st (write l w st) (λ st' e. Written-Evolves l (write-Written l w st st' e))
call-Evolves (claims worker now ttl attempt) st d = claim-Evolves worker now ttl attempt st d
call-Evolves (cancels tenant id now) st d =
    after-Evolves st (cancel_job tenant id now st)
      (λ st' e. cancel_job-Evolves tenant id now st st' e)
call-Evolves (deletes tenant id now) st d =
    after-Evolves st (delete_job tenant id now st)
      (λ st' e. delete_job-Evolves tenant id now st st' e)
call-Evolves (inserts rec now) st d = insert_job-Evolves rec now st
