-- ===== src/Examples/Jobs.antt =====
-- internal/jobs at concrete inputs: one job, claimed by two workers.
use mini_enclava_go.Common.{
  ℕ, ◌≡◌, refl, ◌≢◌, ◌⊎◌, inl, String, true, false, List, [], ◌∷◌, none, some, err, arith, ◌<◌,
  update_where, any_where,
}
use mini_enclava_go.Common.Int64.{pos}
use mini_enclava_go.Jobs.Types.{JobRow, Store, Lease, Subject, Status, running, queued, stale_fence}
use mini_enclava_go.Jobs.Repo.{holds}
use mini_enclava_go.Jobs.Claiming.{claim, ClaimedJob, sweep, granted, grant, next_job}
use mini_enclava_go.Jobs.Enqueue.{EnqueueRequest}
use mini_enclava_go.Jobs.Machine.{
  Call, claims, writes, deletes, run, Write, write, completes, SameKey, Evolves,
}
use mini_enclava_go.Jobs.Machine.Keys.{AreDistinct, Has}
use mini_enclava_go.Jobs.Machine.Distinct.{run-Evolves}
use mini_enclava_go.Jobs.Machine.Grant.{claim-holds, fenced_off}
use mini_enclava_go.Jobs.Machine.Terminal.{final-stays, stopping-stays, IsFinal}
use mini_enclava_go.Jobs.Service.{Claim, retryable, retry_delay}
use mini_enclava_go.Jobs.Service.Backoff.{retry_delay-capped}
use mini_enclava_go.Jobs.Runner.{translate, broke}
use mini_enclava_go.Jobs.Runner.Outcome.{translate-Becomes, Becomes}
use mini_enclava_go.Common.{length, Bool}
use mini_enclava_go.Jobs.Reads.{list_owned_jobs, count_owned_jobs, rows_where}
use mini_enclava_go.Jobs.Reads.Owned.{
  IsOwned, IsAmong, IsNewestFirst, IsLeftOut, list_owned_jobs-IsOwned,
}
use mini_enclava_go.Common.{Each, ◌⊎◌}

abbrev target : Subject
target = record { connection_id = "c"; object_id = "o"; observed_revision = 1 }

abbrev request : EnqueueRequest
request = record {
  tenant_id = "";
  operation = "rag.index";
  idempotency_key = "k1";
  subject = target;
  input_ref = "a1";
  input_hash = "h1";
  policy = "{}";
  max_attempts = 3;
}

abbrev waiting : JobRow
waiting = record {
  tenant_id = "t1";
  id = "job_1";
  operation = "rag.index";
  status = queued;
  idempotency_key = "k1";
  subject = target;
  input_ref = "a1";
  input_hash = "h1";
  submitter_key = "s1";
  policy = "{}";
  attempts = 0;
  max_attempts = 3;
  fence_token = 0;
  lease_owner = none;
  lease_expires_at = none;
  dispatched_attempt_id = none;
  progress = "{}";
  result_ref = "";
  error = none;
  submitted_at = 100;
  started_at = none;
  finished_at = none;
  cancel_requested_at = none;
  deleted_at = none;
}

abbrev store : Store
store = record { jobs = waiting ∷ []; attempts = [] }

-- The job as worker w runs it under a fence.
abbrev running_row : String → ℕ → ℕ → JobRow
running_row worker fence expires = record waiting {
  status = running;
  attempts = fence;
  fence_token = fence;
  lease_owner = some worker;
  lease_expires_at = some expires;
  started_at = some 110;
}

abbrev lease_of : String → ℕ → Lease
lease_of worker fence = record {
  tenant_id = "t1";
  job_id = "job_1";
  owner = worker;
  fence_token = fence;
}

abbrev claimed : String → ℕ → ℕ → String → ClaimedJob
claimed worker fence expires attempt = record {
  row = running_row worker fence expires;
  lease = lease_of worker fence;
  attempt_id = attempt;
}

abbrev first_claim : Store
first_claim = (claim "w1" 110 30 "a1" store).1

-- The first lease ends at 140 undispatched.
abbrev second_claim : Store
second_claim = (claim "w2" 150 30 "a2" first_claim).1

first_claimed : claim "w1" 110 30 "a1" store ≡ (some (claimed "w1" 1 140 "a1"), first_claim)
unfolding claim sweep next_job grant granted update_where any_where
first_claimed = refl

second_claimed :
    claim "w2" 150 30 "a2" (run [] first_claim) ≡ (some (claimed "w2" 2 180 "a2"), second_claim)
unfolding claim sweep next_job grant granted update_where any_where run
second_claimed = refl

abbrev late_calls : List Call
late_calls = writes (lease_of "w2" 2) (completes "a2" "r" 160) ∷ []

run-Evolves_example :
    AreDistinct (run late_calls second_claim).jobs
    × Evolves second_claim.jobs (run late_calls second_claim).jobs
unfolding claim sweep next_job grant granted update_where any_where
run-Evolves_example = run-Evolves late_calls second_claim (refl, tt)

claim-holds_example :
    let c = claimed "w1" 1 140 "a1" in
    (c.row.cancel_requested_at ≡ none)
    × (c.row.deleted_at ≡ none)
    × (holds c.lease c.row ≡ true)
    × (any_where (holds c.lease) first_claim.jobs ≡ true)
claim-holds_example =
    claim-holds "w1" 110 30 "a1" store first_claim (claimed "w1" 1 140 "a1") first_claimed

fenced_off_example :
    (1 < 2)
    × ((w : Write) → write (lease_of "w1" 1) w (run late_calls second_claim) ≡ err stale_fence)
unfolding any_where claim sweep next_job grant granted update_where
fenced_off_example =
    fenced_off "w1" 110 30 "a1" store (claimed "w1" 1 140 "a1") first_claim [] "w2" 150 30 "a2"
      (claimed "w2" 2 180 "a2") second_claim late_calls (refl, tt) first_claimed second_claimed refl
      refl

abbrev done_row : JobRow
done_row = record waiting { status = Status.succeeded; finished_at = some 120 }

final-stays_example :
    (s : JobRow) × Has s
      (run
        (claims "w1" 130 30 "a9" ∷ deletes "t1" "job_1" 140 ∷ [])
        (record { jobs = done_row ∷ []; attempts = [] })).jobs
    × SameKey done_row s
    × ((s.status ≡ Status.succeeded) ⊎ (s.status ≡ Status.deleted))
unfolding any_where
final-stays_example =
    final-stays (claims "w1" 130 30 "a9" ∷ deletes "t1" "job_1" 140 ∷ [])
      (record { jobs = done_row ∷ []; attempts = [] }) done_row (refl, tt) (inl refl)
      IsFinal.succeeded

abbrev asked_row : JobRow
asked_row = record (running_row "w1" 1 140) { cancel_requested_at = some 115 }

stopping-stays_example :
    (s : JobRow) × Has s
      (run
        (writes (lease_of "w1" 1) (completes "a1" "r" 120) ∷ [])
        (record { jobs = asked_row ∷ []; attempts = [] })).jobs
    × SameKey asked_row s
    × (s.cancel_requested_at ≢ none)
    × (s.status ≢ Status.succeeded)
    × (s.fence_token ≡ 1)
unfolding any_where
stopping-stays_example =
    stopping-stays (writes (lease_of "w1" 1) (completes "a1" "r" 120) ∷ [])
      (record { jobs = asked_row ∷ []; attempts = [] }) asked_row (refl, tt) (inl refl) (λ e. cc e)
      (λ e. cc e)

-- The job is claimed and published before the request comes again.
abbrev between : List Call
between = claims "w1" 110 30 "a1" ∷ writes (lease_of "w1" 1) (completes "a1" "r" 120) ∷ []

retry_delay-capped_example : retry_delay (pos 100000000) 3 ≡ pos 800000000
retry_delay-capped_example = retry_delay-capped 100000000 3 (omega arith)

abbrev first_worker : Claim
first_worker = record { granted = claimed "w1" 1 140 "a1"; dispatched = false }

translate-Becomes_example : Becomes (running_row "w1" 1 140) queued (
    translate
      (λ cause again. cause)
      (pos 100000000)
      first_worker
      ""
      (broke "timeout" retryable)
      120
      first_claim)
unfolding claim sweep next_job grant granted update_where any_where
translate-Becomes_example =
    translate-Becomes (λ cause again. cause) (pos 100000000) first_worker ""
      (broke "timeout" retryable) 120 first_claim (running_row "w1" 1 140) (refl, tt) (inl refl)
      refl refl

abbrev before_in_order : String → String → Bool
before_in_order a b = true

list_owned_jobs-IsOwned_example :
    let page = list_owned_jobs before_in_order "t1" "s1" 0 store in
    Each (λ r. IsOwned "t1" "s1" r × IsAmong r store.jobs) page
    × IsNewestFirst page
    × (length page ≡ 1)
    × ((r : JobRow)
        → IsAmong r store.jobs
        → IsOwned "t1" "s1" r
        → IsAmong r page ⊎ IsLeftOut 50 r page)
unfolding count_owned_jobs rows_where
list_owned_jobs-IsOwned_example = list_owned_jobs-IsOwned before_in_order "t1" "s1" 0 store
