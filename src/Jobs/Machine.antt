-- ===== src/Jobs/Machine.antt =====
-- Every way in which the two tables change, as one call, and the state machine of one job that the
-- calls implement. A call that returns an error changes nothing: its transaction rolls back.
pub mod Keys
pub mod Refinement
pub mod Distinct
pub mod Fencing
pub mod Grant
pub mod Terminal
use mini_enclava_go.Common.{
  ℕ, ◌+◌, ◌≡◌, ◌≢◌, ◌⊎◌, String, Bool, true, false, List, [], ◌∷◌, Option, none, some, ok, err,
  ◌>>=◌, Each,
}
use mini_enclava_go.Jobs.Types.{
  Status, queued, running, succeeded, failed, cancelled, unknown, deleted, Result, JobRow, Store,
  Lease, InsertRecord,
}
use mini_enclava_go.Jobs.Repo.{
  extend_lease, write_progress, mark_dispatched, complete_job, fail_job, release_job,
  mark_unknown_job, cancel_job, delete_job,
}
use mini_enclava_go.Jobs.Claiming.{claim}
use mini_enclava_go.Jobs.Enqueue.{insert_job}

-- The writes of a worker under its lease.
pub data Write : Type 0 where
  extends : (now ttl : ℕ) → Write
  reports : (doc : String) → Write
  dispatches : (attempt : String) → Write
  completes : (attempt result : String) (now : ℕ) → Write
  fails : (attempt : String) (retry : Bool) (not_before : ℕ) (error : String) (now : ℕ) → Write
  releases : (attempt : String) (now : ℕ) → Write
  gives_up : (attempt error : String) (now : ℕ) → Write

pub write : Lease → Write → Store → Result Store
write l (extends now ttl) st = extend_lease l now ttl st
write l (reports doc) st = write_progress l doc st
write l (dispatches attempt) st = mark_dispatched l attempt st
write l (completes attempt result now) st = complete_job l attempt result now st
write l (fails attempt retry not_before error now) st =
    fail_job l attempt retry not_before error now st
write l (releases attempt now) st = release_job l attempt now st
write l (gives_up attempt error now) st = mark_unknown_job l attempt error now st

pub data Call : Type 0 where
  writes : (l : Lease) (w : Write) → Call
  claims : (worker : String) (now ttl : ℕ) (attempt : String) → Call
  cancels : (tenant id : String) (now : ℕ) → Call
  deletes : (tenant id : String) (now : ℕ) → Call
  inserts : (rec : InsertRecord) (now : ℕ) → Call

abbrev pub after : Store → Result Store → Store
after st (ok st') = st'
after st (err e) = st

abbrev pub after_insert : {A : Type 0} → Store → Result (A × Store) → Store
after_insert st (ok (a, st')) = st'
after_insert st (err e) = st

unfoldable pub call : Call → Store → Store
call (writes l w) st = after st (write l w st)
call (claims worker now ttl attempt) st = (claim worker now ttl attempt st).1
call (cancels tenant id now) st = after st (cancel_job tenant id now st)
call (deletes tenant id now) st = after st (delete_job tenant id now st)
call (inserts rec now) st = after_insert st (insert_job rec now st)

unfoldable pub run : List Call → Store → Store
run [] st = st
run (c ∷ cs) st = run cs (call c st)

-- What a publishing worker may make of its running job, by the cancel request it carries.
pub data Published : Option ℕ → Status → Type 0 where
  done : Published none Status.succeeded
  stopped : {t : ℕ} → Published (some t) Status.cancelled
  broken : {o : Option ℕ} → Published o Status.failed
  requeued : {o : Option ℕ} → Published o Status.queued
  lost : {o : Option ℕ} → Published o Status.unknown

-- What a row has from the request that it was inserted for.
abbrev pub request_of : JobRow → InsertRecord
request_of r = record {
  tenant_id = r.tenant_id;
  id = r.id;
  operation = r.operation;
  idempotency_key = r.idempotency_key;
  subject = r.subject;
  input_ref = r.input_ref;
  input_hash = r.input_hash;
  submitter_key = r.submitter_key;
  policy = r.policy;
  max_attempts = r.max_attempts;
}

-- The rows are of one job: they have its key, and its request.
abbrev pub SameKey : JobRow → JobRow → Type 0
SameKey r s = (s.tenant_id ≡ r.tenant_id) × (s.id ≡ r.id) × (request_of s ≡ request_of r)

-- The machine of one job, as its row moves from r to s.
pub data Step (r s : JobRow) : Type 0 where
  quiet :
      SameKey r s
      → s.status ≡ r.status
      → s.fence_token ≡ r.fence_token
      → s.lease_owner ≡ r.lease_owner
      → s.cancel_requested_at ≡ r.cancel_requested_at
      → s.deleted_at ≡ r.deleted_at
      → Step r s
  publish :
      SameKey r s
      → r.status ≡ Status.running
      → Published r.cancel_requested_at s.status
      → s.fence_token ≡ r.fence_token
      → s.lease_owner ≡ none
      → s.cancel_requested_at ≡ r.cancel_requested_at
      → s.deleted_at ≡ r.deleted_at
      → Step r s
  grant :
      SameKey r s
      → (r.status ≡ Status.queued) ⊎ (r.status ≡ Status.running)
      → r.cancel_requested_at ≡ none
      → r.deleted_at ≡ none
      → s.status ≡ Status.running
      → s.fence_token ≡ r.fence_token + 1
      → s.cancel_requested_at ≡ none
      → s.deleted_at ≡ none
      → Step r s
  cancel_queued :
      SameKey r s
      → r.status ≡ Status.queued
      → s.status ≡ Status.cancelled
      → s.fence_token ≡ r.fence_token
      → s.cancel_requested_at ≢ none
      → s.deleted_at ≡ r.deleted_at
      → Step r s
  cancel_running :
      SameKey r s
      → r.status ≡ Status.running
      → s.status ≡ Status.running
      → s.fence_token ≡ r.fence_token
      → s.cancel_requested_at ≢ none
      → s.deleted_at ≡ r.deleted_at
      → Step r s
  delete :
      SameKey r s
      → r.status ≢ Status.deleted
      → s.status ≡ Status.deleted
      → s.fence_token ≡ r.fence_token
      → s.cancel_requested_at ≡ r.cancel_requested_at
      → s.deleted_at ≢ none
      → Step r s

-- A row as it is inserted.
abbrev pub IsFresh : JobRow → Type 0
IsFresh r = (r.status ≡ Status.queued) × (r.fence_token ≡ 0) × (r.lease_owner ≡ none)

-- A path of the machine.
pub data Steps (r : JobRow) : JobRow → Type 0 where
  here : Steps r r
  then' : {s t : JobRow} → Steps r s → Step s t → Steps r t

-- A row that was inserted and made its way since.
abbrev pub IsBorn : JobRow → Type 0
IsBorn s = (r : JobRow) × IsFresh r × Steps r s

-- Every row goes a path of the machine, and so does every row that is added, from its insertion.
pub data Evolves : List JobRow → List JobRow → Type 0 where
  born : {new : List JobRow} → Each IsBorn new → Evolves [] new
  moved :
      {r s : JobRow} {rows rows' : List JobRow}
      → Steps r s
      → Evolves rows rows'
      → Evolves (r ∷ rows) (s ∷ rows')
