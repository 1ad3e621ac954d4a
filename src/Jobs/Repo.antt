-- ===== src/Jobs/Repo.antt =====
-- internal/store/postgres/jobs_repo.go: the statements as updates of the two tables, one transaction
-- a call; an error rolls back. `now()` and new random ids are arguments.
use mini_enclava_go.Common.{
  ℕ, ◌+◌, Bool, not, ◌&&◌, ◌||◌, String, str_eq, Option, none, some, ◌==◌, if◌then◌else◌, ok, err,
  ◌>>=◌, update_where, any_where, find_where,
}
use mini_enclava_go.Jobs.Types.{
  Status, queued, succeeded, failed, cancelled, unknown, deleted, Result, stale_fence,
  job_not_found, storage, JobRow, AttemptRow, Store, Lease, is_running, is_queued, is_deleted,
  is_null, is_text,
}

-- `tenant_id = $1 AND id = $2`.
abbrev pub is_job : String → String → JobRow → Bool
is_job tenant id r = str_eq r.tenant_id tenant && str_eq r.id id

-- The guard of every fenced statement:
-- `status = 'running' AND lease_owner = $3 AND fence_token = $4`.
abbrev pub holds : Lease → JobRow → Bool
holds l r =
    is_job l.tenant_id l.job_id r
    && (is_running r.status && (is_text l.owner r.lease_owner && (r.fence_token == l.fence_token)))

-- An attempt that is not finished.
abbrev pub is_open : String → String → AttemptRow → Bool
is_open tenant id a = str_eq a.tenant_id tenant && (str_eq a.id id && is_null a.finished_at)

-- `none` leaves the error of the attempt as it is.
finish : Status → ℕ → Option String → AttemptRow → AttemptRow
finish status now none a = record a { status = status; finished_at = some now }
finish status now (some e) a = record a { status = status; finished_at = some now; error = some e }

-- An update of jobs whose guard must match a row (`fenced`, and `mapNoRowsAs` for RETURNING).
fenced : (JobRow → Bool) → (JobRow → JobRow) → Store → Result Store
fenced guard set st =
    if any_where guard st.jobs
    then ok (record st { jobs = update_where guard set st.jobs })
    else err stale_fence

-- The second statement of a transaction: the attempt must still be open.
finish_attempt : String → String → Status → ℕ → Option String → Store → Result Store
finish_attempt tenant attempt status now error st =
    if any_where (is_open tenant attempt) st.attempts
    then ok (record st {
      attempts = update_where (is_open tenant attempt) (finish status now error) st.attempts;
    })
    else err stale_fence

unfoldable pub extend_lease : Lease → ℕ → ℕ → Store → Result Store
unfolding fenced
extend_lease l now ttl = fenced (holds l) (λ r. record r { lease_expires_at = some (now + ttl) })

unfoldable pub write_progress : Lease → String → Store → Result Store
unfolding fenced
write_progress l doc = fenced (holds l) (λ r. record r { progress = doc })

unfoldable pub cancel_requested : Lease → Store → Result Bool
cancel_requested l st = elim (find_where (holds l) st.jobs) [
  | none ↦ err stale_fence
  | some r ↦ ok (not (is_null r.cancel_requested_at))
]

-- The foreign key refuses an attempt that is not there.
unfoldable pub mark_dispatched : Lease → String → Store → Result Store
unfolding fenced
mark_dispatched l attempt st =
    if any_where (holds l) st.jobs
      && not (any_where (λ a. str_eq a.tenant_id l.tenant_id && str_eq a.id attempt) st.attempts)
    then err storage
    else fenced (holds l) (λ r. record r { dispatched_attempt_id = some attempt }) st

unfoldable pub completed : ℕ → String → JobRow → JobRow
completed now result r = record r {
  status = if is_null r.cancel_requested_at then succeeded else cancelled;
  result_ref = result;
  finished_at = some now;
  lease_owner = none;
  lease_expires_at = none;
  dispatched_attempt_id = none;
}

unfoldable pub complete_job : Lease → String → String → ℕ → Store → Result Store
unfolding fenced completed finish_attempt finish
complete_job l attempt result now st = do
  st' ← fenced (holds l) (completed now result) st
  finish_attempt l.tenant_id attempt succeeded now none st'

unfoldable pub failed_row : Bool → ℕ → String → ℕ → JobRow → JobRow
failed_row retry not_before error now r = record r {
  status = if retry then queued else failed;
  lease_owner = none;
  lease_expires_at = if retry then some not_before else none;
  dispatched_attempt_id = none;
  error = some error;
  finished_at = if retry then none else some now;
}

unfoldable pub fail_job : Lease → String → Bool → ℕ → String → ℕ → Store → Result Store
unfolding fenced failed_row finish_attempt finish
fail_job l attempt retry not_before error now st = do
  st' ← fenced (holds l) (failed_row retry not_before error now) st
  finish_attempt l.tenant_id attempt failed now (some error) st'

unfoldable pub released : JobRow → JobRow
released r = record r {
  status = queued;
  lease_owner = none;
  lease_expires_at = none;
  dispatched_attempt_id = none;
}

-- Here the attempt may be closed already.
unfoldable pub release_job : Lease → String → ℕ → Store → Result Store
unfolding fenced released
release_job l attempt now st = do
  st' ← fenced (holds l) released st
  ok (record st' {
    attempts =
        update_where (is_open l.tenant_id attempt)
          (λ a. record a { status = unknown; finished_at = some now }) st'.attempts;
  })

unfoldable pub unknown_row : ℕ → String → JobRow → JobRow
unknown_row now error r = record r {
  status = unknown;
  finished_at = some now;
  error = some error;
  lease_owner = none;
  lease_expires_at = none;
}

unfoldable pub mark_unknown_job : Lease → String → String → ℕ → Store → Result Store
unfolding fenced unknown_row finish_attempt finish
mark_unknown_job l attempt error now st = do
  st' ← fenced (holds l) (unknown_row now error) st
  finish_attempt l.tenant_id attempt unknown now (some error) st'

-- An update whose guard must match a row, or the job is reported absent.
found : (JobRow → Bool) → (JobRow → JobRow) → Store → Result Store
found guard set st =
    if any_where guard st.jobs
    then ok (record st { jobs = update_where guard set st.jobs })
    else err job_not_found

unfoldable pub cancelled_row : ℕ → JobRow → JobRow
cancelled_row now r = record r {
  cancel_requested_at = if is_null r.cancel_requested_at then some now else r.cancel_requested_at;
  status = if is_queued r.status then cancelled else r.status;
  finished_at = if is_queued r.status then some now else r.finished_at;
}

abbrev pub may_cancel : String → String → JobRow → Bool
may_cancel tenant id r = is_job tenant id r && (is_queued r.status || is_running r.status)

unfoldable pub cancel_job : String → String → ℕ → Store → Result Store
unfolding found cancelled_row
cancel_job tenant id now = found (may_cancel tenant id) (cancelled_row now)

abbrev pub may_delete : String → String → JobRow → Bool
may_delete tenant id r = is_job tenant id r && not (is_deleted r.status)

abbrev pub deleted_row : ℕ → JobRow → JobRow
deleted_row now r = record r { status = deleted; deleted_at = some now }

unfoldable pub delete_job : String → String → ℕ → Store → Result Store
unfolding found
delete_job tenant id now = found (may_delete tenant id) (deleted_row now)
