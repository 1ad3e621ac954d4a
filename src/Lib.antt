-- ===== src/Lib.antt =====
-- Verification library of the gateway: its core decisions and state machines, over the Go sources.
--
-- Parts, and the files that model them
--   Billing (internal/billing/service.go, types.go, repository.go)
--     Billing.Types has prices, snapshots, usage and budgets; Billing.Wide is `div128` and the type
--     `big128` with `addRatMul` and `i64`, a 64-bit word a number below 2 ^ 64 and each wrap written
--     out; Billing.Charge is `charge`, `unitMap` and `snapshotFor`; Billing.Admit is `admit` and
--     `checkedAdd`. The loop of `div128` runs 128 times, as in the source, and needs no fuel. A map is
--     an association list in the order in which the source sorts its keys.
--     Billing.Ledger has the tables of internal/store/postgres/billing_repo.go and the statements of its
--     transaction, Billing.Reserve the calls `Reserve`, `Settle`, `MarkUnknown`, `MarkDispatched` and
--     `ReleaseUndispatched` over them, and Billing.Reserve.Calls a call of any of them and its effect on
--     the ledger. A call is one step, as its locks on the rows make it, and an error leaves the ledger
--     as it was. The id of a row is the id of its reservation and, in the row of a further subject,
--     that subject. Billing.Literal is `strArray`, the array literal of the budgets' query, on lists of
--     runes.
--   Jobs (internal/jobs/types.go, repository.go, service.go, runner.go and
--     internal/store/postgres/jobs_repo.go)
--     Jobs.Types has the rows of the two tables; Jobs.Repo one function per statement, a `WHERE` a
--     Boolean guard and a `SET` a function on rows; Jobs.Claiming is `Claim` with its sweep;
--     Jobs.Enqueue is `InsertJob`, `GetOwnedJob`, `Enqueue`, `Cancel` and `Delete`; Jobs.Reads is the
--     lists and counts; Jobs.Service is the
--     worker's claim, `Fail` and `retryDelay`; Jobs.Runner is `translate`. Jobs.Machine has the calls
--     that change the tables, one at a time, and the machine of one job as a step relation. A call
--     that returns an error changes nothing, since its transaction rolls back. Of several jobs
--     submitted at one time the first of the table is claimed, and the rows that another transaction
--     locks are not skipped, since calls do not overlap.
--   Inference (internal/inference/admission.go, policy.go, service.go, usage.go, types.go and
--     internal/auth/principal.go)
--     Inference.Admission has one pool of the gate: `Acquire` up to its select, both cases of the
--     select, `Release` and `grantLocked`. The mutex makes each of them one step; arrivals, wake-ups,
--     cancellations and releases come in any order. Inference.Payload is `walkPayload` on a decoded
--     document, Inference.Inputs is `resolveInputs`, and Inference.Routing is `AuthorizeDestination`
--     with `analyzePayload` and `evaluate`, `route`, and (Inference.Routing.Target)
--     `validateResponsesTarget`. Inference.Execute is `Execute` of service.go from the decision through
--     the calls of Billing.Reserve to the outcome, with what the endpoint answers and what fails as
--     arguments. The stores and the authorizer that the service calls are records of their calls, and
--     Source has the authorizer itself.
--   Source (internal/source/authorize.go, types.go, repository.go)
--     Source.Authorizer has `CanRead`, `canReadSourceACL`, `CanReadVersion`, `EffectiveRestrictions` and
--     `checkNarrowing`. The queries of `SourceRepository` are a record that every function takes.
--   Httpx (internal/httpx/ratelimit.go)
--     Httpx.RateLimiter is `allow` with its clean-up.
--   Rag (internal/rag/chunk.go, text.go)
--     Rag.Chunk is `ChunkText` with `backtrackToBoundary` and `normalizeText`, on lists of runes. Its
--     loop runs on fuel, one more than the number of runes: each round moves the start on by one.
--   Common has the shared tests, lists, words, integers of 64 bits, results with errors, and tables.
--   Examples has each theorem at a concrete input.
--
-- Parameters: the JSON document of an error (encoding/json), new random identifiers, the time of the
-- service and that of the database (which fills a new row's created_at), the start of a month (package
-- time), the database's order of texts, `strings.TrimSpace`, `ToLower`, `ToUpper` and `EqualFold`, the
-- decoder of encoding/json and the range of its numbers are arguments. An instant is a number; a
-- duration in the backoff is an int64.
--
-- Not modelled: HTTP handlers and pages, configuration, OIDC and sessions, connectors to third-party
-- services, the vector store, language-model adapters and the remaining repositories, which are
-- mostly input and output; the lists and totals of the billing tables, the readers of file formats
-- (which rest on third-party parsers), and of inference requests the encoding of the body and the
-- reading of usage.
mod Common
pub mod Billing
pub mod Jobs
pub mod Inference
pub mod Source
pub mod Httpx
pub mod Rag
mod Examples
