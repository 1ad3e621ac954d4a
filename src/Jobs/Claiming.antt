-- ===== src/Jobs/Claiming.antt =====
-- `JobsRepo.Claim` of internal/store/postgres/jobs_repo.go: the sweep and the fenced claim, one
-- transaction.
use mini_enclava_go.Common.{
  ℕ, ◌+◌, Bool, true, false, not, ◌&&◌, ◌||◌, String, str_eq, List, [], ◌∷◌, Option, none, some,
  ltb, leb, if◌then◌else◌, update_where, any_where,
}
use mini_enclava_go.Jobs.Types.{
  running, unknown, JobRow, AttemptRow, Store, Lease, is_running, is_queued, is_null, is_text,
}
use mini_enclava_go.Jobs.Repo.{is_job}

abbrev pub sweep_error : String
sweep_error =
    "{\"message\":\"lease expired after dispatch; outcome unobserved\",\"retryable\":false}"

-- `t IS NOT NULL AND t < now()`, and `t IS NULL OR t <= now()`.
abbrev pub is_past : ℕ → Option ℕ → Bool
is_past now none = false
is_past now (some t) = ltb t now

abbrev pub is_due : ℕ → Option ℕ → Bool
is_due now none = true
is_due now (some t) = leb t now

-- The job's dispatched attempt exists and is not finished.
abbrev pub has_open_dispatch : List AttemptRow → JobRow → Bool
has_open_dispatch attempts r =
    any_where
      (λ a.
        str_eq a.tenant_id r.tenant_id
        && (is_text a.id r.dispatched_attempt_id && is_null a.finished_at))
      attempts

-- The `WHERE` of the sweep.
abbrev pub is_swept : ℕ → List AttemptRow → JobRow → Bool
is_swept now attempts r =
    is_running r.status
    && (is_past now r.lease_expires_at
        && (not (is_null r.dispatched_attempt_id) && has_open_dispatch attempts r))

swept_row : ℕ → JobRow → JobRow
swept_row now r = record r {
  status = unknown;
  finished_at = some now;
  error = some sweep_error;
  lease_owner = none;
  lease_expires_at = none;
}

-- An attempt that a swept job names as dispatched.
names_attempt : ℕ → List AttemptRow → AttemptRow → JobRow → Bool
names_attempt now attempts a r =
    is_swept now attempts r
    && (str_eq a.tenant_id r.tenant_id && is_text a.id r.dispatched_attempt_id)

unfoldable pub sweep : ℕ → Store → Store
unfolding swept_row names_attempt
sweep now st = record {
  jobs = update_where (is_swept now attempts) (swept_row now) jobs;
  attempts =
      update_where (λ a. any_where (names_attempt now attempts a) jobs)
        (λ a. record a { status = unknown; finished_at = some now }) attempts;
}
  where
    open st use {jobs, attempts}

-- The `WHERE` of the claim.
abbrev pub is_claimable : ℕ → List AttemptRow → JobRow → Bool
is_claimable now attempts r =
    is_null r.cancel_requested_at
    && (is_null r.deleted_at
        && ((is_queued r.status && is_due now r.lease_expires_at)
            || (is_running r.status
                && (is_past now r.lease_expires_at && not (has_open_dispatch attempts r)))))

-- `ORDER BY submitted_at LIMIT 1`; of several oldest rows the first of the table is taken.
unfoldable pub older : JobRow → Option JobRow → JobRow
older r none = r
older r (some s) = if ltb s.submitted_at r.submitted_at then s else r

unfoldable pub next_job : (JobRow → Bool) → List JobRow → Option JobRow
unfolding older
next_job p [] = none
next_job p (r ∷ rows) = let rest = next_job p rows in if p r then some (older r rest) else rest

unfoldable pub granted : String → ℕ → ℕ → JobRow → JobRow
granted worker now ttl r = record r {
  status = running;
  fence_token = r.fence_token + 1;
  lease_owner = some worker;
  lease_expires_at = some (now + ttl);
  attempts = r.attempts + 1;
  started_at = if is_null r.started_at then some now else r.started_at;
  dispatched_attempt_id = none;
  error = none;
}

-- The lease, the claimed row and the new attempt's id.
pub record ClaimedJob : Type 0 where
  pub row : JobRow
  pub lease : Lease
  pub attempt_id : String

-- The grant of one row: its update, the close of its open attempts and the new attempt.
unfoldable pub grant : String → ℕ → ℕ → String → JobRow → Store → ClaimedJob × Store
unfolding granted
grant worker now ttl attempt r st =
    let claimed = granted worker now ttl r in
    let closed =
      update_where
        (λ a. str_eq a.tenant_id r.tenant_id && (str_eq a.job_id r.id && is_null a.finished_at))
        (λ a. record a { status = unknown; finished_at = some now }) st.attempts in
    (
      record {
        row = claimed;
        lease = record {
          tenant_id = r.tenant_id;
          job_id = r.id;
          owner = worker;
          fence_token = claimed.fence_token;
        };
        attempt_id = attempt;
      },
      record {
        jobs = update_where (is_job r.tenant_id r.id) (granted worker now ttl) st.jobs;
        attempts =
            record {
              tenant_id = r.tenant_id;
              id = attempt;
              job_id = r.id;
              fence_token = claimed.fence_token;
              status = running;
              worker_id = worker;
              finished_at = none;
              error = none;
            }
            ∷ closed;
      },
    )

unfoldable pub claim : String → ℕ → ℕ → String → Store → Option ClaimedJob × Store
claim worker now ttl attempt st =
    let swept = sweep now st in
    elim (next_job (is_claimable now swept.attempts) swept.jobs) [
      | none ↦ (none, swept)
      | some r ↦ let (c, st') = grant worker now ttl attempt r swept in (some c, st')
    ]
