-- ===== src/Jobs/Machine/Terminal.antt =====
-- The ends of a job: its final statuses, and what a cancel request leaves possible.
use mini_enclava_go.Common.{ℕ, ◌≡◌, ◌≢◌, refl, ◌∙◌, ◌⊎◌, inl, inr, List, Option, none}
use mini_enclava_go.Jobs.Types.{JobRow, Store, Status}
use mini_enclava_go.Jobs.Machine.{
  SameKey, Step, quiet, publish, grant, cancel_queued, cancel_running, delete, Steps, here, then',
  Call, run, Published, done, stopped, broken, requeued, lost,
}
use mini_enclava_go.Jobs.Machine.Keys.{AreDistinct, Has}
use mini_enclava_go.Jobs.Machine.Distinct.{run-Evolves}
use mini_enclava_go.Jobs.Machine.Fencing.{Evolves-Has, Steps-SameKey}

-- The terminal statuses of the service.
pub data IsFinal : Status → Type 0 where
  succeeded : IsFinal Status.succeeded
  failed : IsFinal Status.failed
  cancelled : IsFinal Status.cancelled
  unknown : IsFinal Status.unknown
  deleted : IsFinal Status.deleted

queued-not_final : {s : Status} → IsFinal s → s ≢ Status.queued
queued-not_final IsFinal.succeeded e = cc e
queued-not_final IsFinal.failed e = cc e
queued-not_final IsFinal.cancelled e = cc e
queued-not_final IsFinal.unknown e = cc e
queued-not_final IsFinal.deleted e = cc e

running-not_final : {s : Status} → IsFinal s → s ≢ Status.running
running-not_final IsFinal.succeeded e = cc e
running-not_final IsFinal.failed e = cc e
running-not_final IsFinal.cancelled e = cc e
running-not_final IsFinal.unknown e = cc e
running-not_final IsFinal.deleted e = cc e

-- A final status is kept, or the job is deleted.
abbrev pub Keeps : JobRow → JobRow → Type 0
Keeps r s = (s.status ≡ r.status) ⊎ (s.status ≡ Status.deleted)

Step-Keeps : {r s : JobRow} → IsFinal r.status → Step r s → Keeps r s
Step-Keeps f (quiet _ e _ _ _ _) = inl e
Step-Keeps f (publish _ e _ _ _ _ _) = absurd (running-not_final f e)
Step-Keeps f (grant _ (inl e) _ _ _ _ _ _) = absurd (queued-not_final f e)
Step-Keeps f (grant _ (inr e) _ _ _ _ _ _) = absurd (running-not_final f e)
Step-Keeps f (cancel_queued _ e _ _ _ _) = absurd (queued-not_final f e)
Step-Keeps f (cancel_running _ e _ _ _ _) = absurd (running-not_final f e)
Step-Keeps f (delete _ _ e _ _ _) = inr e

Steps-Keeps : {r s : JobRow} → IsFinal r.status → Steps r s → Keeps r s
Steps-Keeps f here = inl refl
Steps-Keeps {r} {s} f (then' {s = m} p st) = elim (Steps-Keeps f p) [
  | inl same ↦ elim (Step-Keeps (rw same f) st) [ inl e ↦ inl (e ∙ same) | inr e ↦ inr e ]
  | inr gone ↦ elim (Step-Keeps (rw gone IsFinal.deleted) st) [
    | inl e ↦ inr (e ∙ gone)
    | inr e ↦ inr e
  ]
]

-- Where the keys of the table are distinct, a job that has succeeded, failed, been cancelled or
-- become unknown is, after any sequence of calls, still in the table, with that status or deleted;
-- a deleted job stays deleted.
pub final-stays :
    (cs : List Call) (st : Store) (r : JobRow)
    → AreDistinct st.jobs
    → Has r st.jobs
    → IsFinal r.status
    → (s : JobRow) × Has s (run cs st).jobs
      × SameKey r s
      × ((s.status ≡ r.status) ⊎ (s.status ≡ Status.deleted))
final-stays cs st r d h f =
    let (s, hs, p) = Evolves-Has (run-Evolves cs st d).1 h in
    (s, hs, Steps-SameKey p, Steps-Keeps f p)

-- A job that was asked to stop and has not succeeded.
abbrev Stopping : JobRow → Type 0
Stopping r = (r.cancel_requested_at ≢ none) × (r.status ≢ Status.succeeded)

Published-stopping : {o : Option ℕ} {s : Status} → Published o s → o ≢ none → s ≢ Status.succeeded
Published-stopping done h e = h refl
Published-stopping stopped h e = cc e
Published-stopping broken h e = cc e
Published-stopping requeued h e = cc e
Published-stopping lost h e = cc e

Step-Stopping : {r s : JobRow} → Stopping r → Step r s → Stopping s
Step-Stopping h (quiet _ e _ _ c _) = (rw c h.0, rw e h.1)
Step-Stopping h (publish _ _ p _ _ c _) = (rw c h.0, Published-stopping p h.0)
Step-Stopping h (grant _ _ c _ _ _ _ _) = absurd (h.0 c)
Step-Stopping h (cancel_queued _ _ e _ c _) = (c, λ e'. cc (e, e'))
Step-Stopping h (cancel_running _ _ e _ c _) = (c, λ e'. cc (e, e'))
Step-Stopping h (delete _ _ e _ c _) = (rw c h.0, λ e'. cc (e, e'))

Steps-Stopping : {r s : JobRow} → Stopping r → Steps r s → Stopping s
Steps-Stopping h here = h
Steps-Stopping h (then' p st) = Step-Stopping (Steps-Stopping h p) st

Step-no_grant : {r s : JobRow} → Stopping r → Step r s → s.fence_token ≡ r.fence_token
Step-no_grant h (quiet _ _ e _ _ _) = e
Step-no_grant h (publish _ _ _ e _ _ _) = e
Step-no_grant h (grant _ _ c _ _ _ _ _) = absurd (h.0 c)
Step-no_grant h (cancel_queued _ _ _ e _ _) = e
Step-no_grant h (cancel_running _ _ _ e _ _) = e
Step-no_grant h (delete _ _ _ e _ _) = e

Steps-no_grant : {r s : JobRow} → Stopping r → Steps r s → s.fence_token ≡ r.fence_token
Steps-no_grant h here = refl
Steps-no_grant h (then' p st) = Step-no_grant (Steps-Stopping h p) st ∙ Steps-no_grant h p

-- Where the keys of the table are distinct, a job with a cancel request that has not succeeded never
-- does, and is never granted to a worker again: after any sequence of calls it is in the table with
-- another status, the same fence and a cancel request.
pub stopping-stays :
    (cs : List Call) (st : Store) (r : JobRow)
    → AreDistinct st.jobs
    → Has r st.jobs
    → r.cancel_requested_at ≢ none
    → r.status ≢ Status.succeeded
    → (s : JobRow) × Has s (run cs st).jobs
      × SameKey r s
      × (s.cancel_requested_at ≢ none)
      × (s.status ≢ Status.succeeded)
      × (s.fence_token ≡ r.fence_token)
stopping-stays cs st r d h asked unfinished =
    let (s, hs, p) = Evolves-Has (run-Evolves cs st d).1 h in
    let (c, u) = Steps-Stopping (asked, unfinished) p in
    (s, hs, Steps-SameKey p, c, u, Steps-no_grant (asked, unfinished) p)
