-- ===== src/Jobs/Types.antt =====
-- The durable rows and errors of internal/jobs (types.go, repository.go) over the tables of
-- internal/store/postgres/migrations/004_artifacts_jobs.sql. An instant is a number; NULL is `none`.
use mini_enclava_go.Common.{ℕ, Bool, true, false, String, str_eq, List, Option, none, some, Outcome}

pub data Status : Type 0 where
  queued running succeeded failed cancelled unknown deleted : Status

pub data Error : Type 0 where
  idempotency_conflict stale_fence job_not_found job_terminal invalid_request storage : Error

abbrev pub Result : Type 0 → Type 0
Result A = Outcome Error A

pub record Subject : Type 0 where
  pub connection_id : String
  pub object_id : String
  pub observed_revision : ℕ

pub record JobRow : Type 0 where
  pub tenant_id : String
  pub id : String
  pub operation : String
  pub status : Status
  pub idempotency_key : String
  pub subject : Subject
  pub input_ref : String
  pub input_hash : String
  pub submitter_key : String
  pub policy : String
  pub attempts : ℕ
  pub max_attempts : ℕ
  pub fence_token : ℕ
  pub lease_owner : Option String
  pub lease_expires_at : Option ℕ
  pub dispatched_attempt_id : Option String
  pub progress : String
  pub result_ref : String
  pub error : Option String
  pub submitted_at : ℕ
  pub started_at : Option ℕ
  pub finished_at : Option ℕ
  pub cancel_requested_at : Option ℕ
  pub deleted_at : Option ℕ

-- The statuses of an attempt are among those of a job.
pub record AttemptRow : Type 0 where
  pub tenant_id : String
  pub id : String
  pub job_id : String
  pub fence_token : ℕ
  pub status : Status
  pub worker_id : String
  pub finished_at : Option ℕ
  pub error : Option String

pub record Store : Type 0 where
  pub jobs : List JobRow
  pub attempts : List AttemptRow

-- What `InsertRecord` carries beside the row's defaults.
pub record InsertRecord : Type 0 where
  pub tenant_id : String
  pub id : String
  pub operation : String
  pub idempotency_key : String
  pub subject : Subject
  pub input_ref : String
  pub input_hash : String
  pub submitter_key : String
  pub policy : String
  pub max_attempts : ℕ

-- The lease under which a worker writes: the job's key, the worker and the fence it was granted.
pub record Lease : Type 0 where
  pub tenant_id : String
  pub job_id : String
  pub owner : String
  pub fence_token : ℕ

abbrev pub is_running : Status → Bool
is_running Status.running = true
is_running _ = false

abbrev pub is_queued : Status → Bool
is_queued Status.queued = true
is_queued _ = false

abbrev pub is_deleted : Status → Bool
is_deleted Status.deleted = true
is_deleted _ = false

-- `IS NULL`, and a comparison with a text that NULL never passes.
abbrev pub is_null {ℓ} : {A : Type ℓ} → Option A → Bool
is_null none = true
is_null (some a) = false

abbrev pub is_text : String → Option String → Bool
is_text t none = false
is_text t (some s) = str_eq s t
