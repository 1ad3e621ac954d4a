-- ===== src/Jobs/Service.antt =====
-- The worker's side of internal/jobs/service.go: a claim, its `MarkDispatched` and `Fail`, and the
-- backoff. A duration is an int64 of nanoseconds; the JSON document of an error is computed by the
-- caller.
pub mod Backoff
use mini_enclava_go.Common.{
  ℕ, zero, suc, ◌+◌, Bool, true, false, ◌&&◌, String, List, Option, none, some, ok, err, ◌>>=◌, ltb,
  if◌then◌else◌,
}
use mini_enclava_go.Common.Int64.{ℤ, pos, negsuc, add64, ltb_ℤ}
use mini_enclava_go.Jobs.Types.{JobRow, Store, Lease, Result, Status}
use mini_enclava_go.Jobs.Repo.{
  mark_dispatched, fail_job, complete_job, mark_unknown_job, release_job, cancel_requested,
  extend_lease,
}
use mini_enclava_go.Jobs.Claiming.{ClaimedJob, claim}

-- `NewService`: a base of zero or less is 100ms.
abbrev pub base_or_default : ℤ → ℤ
base_or_default base = if ltb_ℤ (pos 0) base then base else pos 100000000

abbrev pub cap : ℤ
cap = pos 30000000000

-- The loop of `retryDelay`.
unfoldable pub retry_delay : ℤ → ℕ → ℤ
retry_delay delay zero = delay
retry_delay delay (suc attempt) =
    let twice = add64 delay delay in
    let rest = retry_delay twice attempt in if ltb_ℤ twice cap then rest else cap

pub data FailureClass : Type 0 where
  fatal retryable : FailureClass

abbrev pub is_retryable : FailureClass → Bool
is_retryable fatal = false
is_retryable retryable = true

-- `Claim`: what `Lease` was granted, and whether this attempt recorded its dispatch.
pub record Claim : Type 0 where
  pub granted : ClaimedJob
  pub dispatched : Bool

-- `Service.Lease`.
unfoldable pub lease : String → ℕ → ℕ → String → Store → Option Claim × Store
lease worker now ttl attempt st =
    let (found, st') = claim worker now ttl attempt st in
    elim found [
      | none ↦ (none, st')
      | some c ↦ (some (record { granted = c; dispatched = false }), st')
    ]

unfoldable pub dispatch : Claim → Store → Result (Claim × Store)
dispatch c st = do
  st' ← mark_dispatched c.granted.lease c.granted.attempt_id st
  ok (record c { dispatched = true }, st')

abbrev pub may_retry : ClaimedJob → FailureClass → Bool
may_retry c class = is_retryable class && ltb (c.row.attempts + 1) c.row.max_attempts

-- `now + delay`: time before 1970 is not reached.
abbrev pub add_delay : ℕ → ℤ → ℕ
add_delay now (pos d) = now + d
add_delay now (negsuc d) = now

module _ (error_doc : String → Bool → String) where
  unfoldable pub fail : ℤ → Claim → String → FailureClass → ℕ → Store → Result Store
  fail base c cause class now =
      fail_job c.granted.lease c.granted.attempt_id (may_retry c.granted class)
        (add_delay now (retry_delay base c.granted.row.attempts))
        (error_doc cause (is_retryable class)) now

  unfoldable pub give_up : Claim → String → ℕ → Store → Result Store
  give_up c reason now =
      mark_unknown_job c.granted.lease c.granted.attempt_id (error_doc reason false) now
