-- ===== src/Jobs/Enqueue.antt =====
-- `Enqueue`, `Get`, `Cancel` and `Delete` of internal/jobs/service.go over `InsertJob` and
-- `GetOwnedJob` of internal/store/postgres/jobs_repo.go. `submitterKey` and `canonicalPolicy` are
-- computed by the caller: a key stands for the principal, a text for the canonical policy.
pub mod Replay
use mini_enclava_go.Common.{
  ℕ, Bool, true, false, not, ◌&&◌, ◌||◌, String, str_eq, List, [], ◌∷◌, ◌++◌, Option, none, some,
  ◌==◌, if◌then◌else◌, ok, err, ◌>>=◌, any_where, find_where,
}
use mini_enclava_go.Jobs.Types.{
  Status, queued, cancelled, Result, idempotency_conflict, job_not_found, job_terminal,
  invalid_request, Subject, JobRow, Store, InsertRecord, is_null,
}
use mini_enclava_go.Jobs.Repo.{is_job, cancel_job, delete_job}

-- The row that the statement inserts, with the table's defaults.
unfoldable pub fresh_row : InsertRecord → ℕ → JobRow
fresh_row rec now = record {
  tenant_id = rec.tenant_id;
  id = rec.id;
  operation = rec.operation;
  status = queued;
  idempotency_key = rec.idempotency_key;
  subject = rec.subject;
  input_ref = rec.input_ref;
  input_hash = rec.input_hash;
  submitter_key = rec.submitter_key;
  policy = rec.policy;
  attempts = 0;
  max_attempts = rec.max_attempts;
  fence_token = 0;
  lease_owner = none;
  lease_expires_at = none;
  dispatched_attempt_id = none;
  progress = "{}";
  result_ref = "";
  error = none;
  submitted_at = now;
  started_at = none;
  finished_at = none;
  cancel_requested_at = none;
  deleted_at = none;
}

-- `UNIQUE (tenant_id, operation, idempotency_key)`.
abbrev pub same_key : InsertRecord → JobRow → Bool
same_key rec r =
    str_eq r.tenant_id rec.tenant_id
    && (str_eq r.operation rec.operation && str_eq r.idempotency_key rec.idempotency_key)

abbrev pub same_subject : Subject → Subject → Bool
same_subject s t =
    str_eq s.connection_id t.connection_id
    && (str_eq s.object_id t.object_id && (s.observed_revision == t.observed_revision))

-- The column `same_key` of the second query.
abbrev pub same_identity : InsertRecord → JobRow → Bool
same_identity rec r =
    str_eq r.submitter_key rec.submitter_key
    && (str_eq r.input_hash rec.input_hash
        && (str_eq r.input_ref rec.input_ref
            && (str_eq r.policy rec.policy && same_subject r.subject rec.subject)))

-- The existing row and whether it is the same, or none after an insert. Either unique index refuses
-- the insert; the row is then looked up by the idempotency key.
unfoldable pub insert_job : InsertRecord → ℕ → Store → Result (Option (JobRow × Bool) × Store)
unfolding fresh_row
insert_job rec now st =
    if any_where (same_key rec) st.jobs || any_where (is_job rec.tenant_id rec.id) st.jobs
    then (elim (find_where (same_key rec) st.jobs) [
      | none ↦ err job_not_found
      | some r ↦ ok (some (r, same_identity rec r), st)
    ])
    else ok (none, record st { jobs = st.jobs ++ fresh_row rec now ∷ [] })

pub record EnqueueRequest : Type 0 where
  pub tenant_id : String
  pub operation : String
  pub idempotency_key : String
  pub subject : Subject
  pub input_ref : String
  pub input_hash : String
  pub policy : String
  pub max_attempts : ℕ

-- `maxAttempts <= 0` takes the default.
abbrev attempts_or_default : ℕ → ℕ
attempts_or_default n = if n == 0 then 3 else n

unfoldable pub record_of : String → String → String → EnqueueRequest → InsertRecord
record_of tenant submitter id req = record {
  tenant_id = tenant;
  id = id;
  operation = req.operation;
  idempotency_key = req.idempotency_key;
  subject = req.subject;
  input_ref = req.input_ref;
  input_hash = req.input_hash;
  submitter_key = submitter;
  policy = req.policy;
  max_attempts = attempts_or_default req.max_attempts;
}

-- What the caller does with the answer of `InsertJob`: a new job is returned as it was requested, its
-- time of submission still zero.
unfoldable pub replay :
    InsertRecord → Option (JobRow × Bool) × Store → Result ((JobRow × Bool) × Store)
unfolding fresh_row
replay rec (none, st) = ok ((fresh_row rec 0, true), st)
replay rec (some (r, same), st) =
    if same
      && (str_eq r.submitter_key rec.submitter_key
          && (same_subject r.subject rec.subject
              && (str_eq r.input_ref rec.input_ref && str_eq r.input_hash rec.input_hash)))
    then ok ((r, false), st)
    else err idempotency_conflict

-- The three guards of `Enqueue`.
abbrev pub is_invalid : String → EnqueueRequest → Bool
is_invalid tenant req =
    str_eq tenant ""
    || ((not (str_eq req.tenant_id "") && not (str_eq req.tenant_id tenant))
        || (str_eq req.operation "" || str_eq req.idempotency_key ""))

-- The job, whether it is new, and the store.
unfoldable pub enqueue :
    String → String → String → EnqueueRequest → ℕ → Store → Result ((JobRow × Bool) × Store)
unfolding record_of replay
enqueue tenant submitter id req now st =
    if is_invalid tenant req
    then err invalid_request
    else (let rec = record_of tenant submitter id req in
        insert_job rec now st >>= λ answer. replay rec answer)

unfoldable pub get_owned_job : String → String → String → Store → Result JobRow
get_owned_job tenant id submitter st =
    elim (find_where
      (λ r. is_job tenant id r && (str_eq r.submitter_key submitter && is_null r.deleted_at))
      st.jobs) [ none ↦ err job_not_found | some r ↦ ok r ]

-- The `switch` of `Service.Cancel` on the status of the row read.
cancel_by_status : Status → String → String → ℕ → Store → Result Store
cancel_by_status Status.cancelled tenant id now st = ok st
cancel_by_status Status.succeeded tenant id now st = err job_terminal
cancel_by_status Status.failed tenant id now st = err job_terminal
cancel_by_status Status.unknown tenant id now st = err job_terminal
cancel_by_status _ tenant id now st = cancel_job tenant id now st

unfoldable pub cancel : String → String → String → ℕ → Store → Result Store
unfolding cancel_by_status
cancel tenant submitter id now st = do
  r ← get_owned_job tenant id submitter st
  cancel_by_status r.status tenant id now st

delete_by_status : Status → String → String → ℕ → Store → Result Store
delete_by_status Status.deleted tenant id now st = err job_not_found
delete_by_status _ tenant id now st = delete_job tenant id now st

unfoldable pub delete : String → String → String → ℕ → Store → Result Store
unfolding delete_by_status
delete tenant submitter id now st = do
  r ← get_owned_job tenant id submitter st
  delete_by_status r.status tenant id now st
