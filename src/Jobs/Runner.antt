-- ===== src/Jobs/Runner.antt =====
-- `Runner.translate` of internal/jobs/runner.go: what becomes of a claim when its handler returns.
-- Errors of the writes are dropped, as in the source.
pub mod Outcome
use mini_enclava_go.Common.{
  ℕ, Bool, true, false, String, Option, none, some, ok, err, if◌then◌else◌,
}
use mini_enclava_go.Common.Int64.{ℤ}
use mini_enclava_go.Jobs.Types.{Store, Result}
use mini_enclava_go.Jobs.Repo.{complete_job, cancel_requested, release_job}
use mini_enclava_go.Jobs.Machine.{after}
use mini_enclava_go.Jobs.Service.{Claim, FailureClass, fail, give_up}

-- The cases of the `switch` on the handler's error: none, the context's, and any other with its class.
pub data HandlerEnd : Type 0 where
  returned : HandlerEnd
  interrupted : HandlerEnd
  broke : (cause : String) (class : FailureClass) → HandlerEnd

abbrev pub dispatch_lost : String
dispatch_lost = "worker context cancelled after dispatch"

-- `werr == nil && wanted`.
abbrev pub is_wanted : Result Bool → Bool
is_wanted (ok wanted) = wanted
is_wanted (err e) = false

abbrev complete : Claim → String → ℕ → Store → Store
complete c result now st =
    after st (complete_job c.granted.lease c.granted.attempt_id result now st)

unfoldable pub translate :
    (String → Bool → String) → ℤ → Claim → String → HandlerEnd → ℕ → Store → Store
translate error_doc base c result returned now st = complete c result now st
translate error_doc base c result interrupted now st =
    if is_wanted (cancel_requested c.granted.lease st)
    then complete c result now st
    else (if c.dispatched
        then after st (give_up error_doc c dispatch_lost now st)
        else after st (release_job c.granted.lease c.granted.attempt_id now st))
translate error_doc base c result (broke cause class) now st =
    after st (fail error_doc base c cause class now st)
