-- ===== src/Jobs/Machine/Fencing.antt =====
-- Fencing tokens: `holds`, the guard of every write of internal/store/postgres/jobs_repo.go, after
-- the job was granted anew.
use mini_enclava_go.Common.{
  ℕ, ◌+◌, ◌≤◌, ◌≡◌, refl, sym, ◌∙◌, ap, inl, inr, String, Bool, true, false, List, [], ◌∷◌, err,
  any_where, arith, Bool-cases,
}
use mini_enclava_go.Jobs.Types.{JobRow, Store, Lease, stale_fence}
use mini_enclava_go.Jobs.Repo.{
  is_job, holds, extend_lease, write_progress, mark_dispatched, complete_job, fail_job, release_job,
  mark_unknown_job,
}
use mini_enclava_go.Jobs.Machine.{
  SameKey, Step, quiet, publish, grant, cancel_queued, cancel_running, delete, Steps, here, then',
  Evolves, born, moved, Write, write, extends, reports, dispatches, completes, fails, releases,
  gives_up,
}
use mini_enclava_go.Jobs.Machine.Keys.{AreDistinct, Has, Has-unique, is_job-keys}
use mini_enclava_go.Jobs.Machine.Distinct.{Step-SameKey}

pub Steps-SameKey : {r s : JobRow} → Steps r s → SameKey r s
Steps-SameKey here = (refl, refl, refl)
Steps-SameKey (then' p st) =
    let k = Steps-SameKey p in let k' = Step-SameKey st in (k'.0 ∙ k.0, k'.1 ∙ k.1, k'.2 ∙ k.2)

Step-fence : {r s : JobRow} → Step r s → r.fence_token ≤ s.fence_token
Step-fence (quiet _ _ e _ _ _) = omega arith
Step-fence (publish _ _ _ e _ _ _) = omega arith
Step-fence (grant _ _ _ _ _ e _ _) = omega arith
Step-fence (cancel_queued _ _ _ e _ _) = omega arith
Step-fence (cancel_running _ _ _ e _ _) = omega arith
Step-fence (delete _ _ _ e _ _) = omega arith

pub Steps-fence : {r s : JobRow} → Steps r s → r.fence_token ≤ s.fence_token
Steps-fence here = omega arith
Steps-fence (then' p st) = let a = Steps-fence p in let b = Step-fence st in omega arith

-- A row of the table has a successor in the table that evolves from it.
pub Evolves-Has :
    {rows rows' : List JobRow} {r : JobRow}
    → Evolves rows rows'
    → Has r rows
    → (s : JobRow) × Has s rows' × Steps r s
Evolves-Has (born _) h = absurd h
Evolves-Has (moved {s} p e) (inl same) = (s, inl refl, rw (sym same) p)
Evolves-Has (moved p e) (inr h) = let (s, hs, q) = Evolves-Has e h in (s, inr hs, q)

pub holds-is_job :
    (l : Lease) (r : JobRow) → holds l r ≡ true → is_job l.tenant_id l.job_id r ≡ true
holds-is_job l r h = ground arith

pub holds-fence : (l : Lease) (r : JobRow) → holds l r ≡ true → r.fence_token ≡ l.fence_token
holds-fence l r h = ground arith

-- A row that a probe finds.
any_where-Has :
    (p : JobRow → Bool) (rows : List JobRow)
    → any_where p rows ≡ true
    → (r : JobRow) × Has r rows × (p r ≡ true)
unfolding any_where
any_where-Has p [] h = cc
any_where-Has p (r ∷ rows) h = elim (Bool-cases (p r)) [
  | inl selected ↦ (r, inl refl, selected)
  | inr other ↦ let (s, hs, e) = any_where-Has p rows (ground arith) in (s, inr hs, e)
]

-- The table has a row of the key with a fence of at least n.
abbrev pub Reached : String → String → ℕ → List JobRow → Type 0
Reached tenant id n rows =
    (r : JobRow) × Has r rows × (is_job tenant id r ≡ true) × (n ≤ r.fence_token)

is_job-Steps :
    (tenant id : String) {r s : JobRow}
    → is_job tenant id r ≡ true
    → Steps r s
    → is_job tenant id s ≡ true
is_job-Steps tenant id {r} {s} h p = let k = Steps-SameKey p in rw (k.0, k.1) h

pub Evolves-Reached :
    (tenant id : String) (n : ℕ) {rows rows' : List JobRow}
    → Evolves rows rows'
    → Reached tenant id n rows
    → Reached tenant id n rows'
Evolves-Reached tenant id n e (r, hr, k, le) =
    let (s, hs, p) = Evolves-Has e hr in
    let le' = Steps-fence p in (s, hs, is_job-Steps tenant id k p, omega arith)

-- A lease whose job has reached a greater fence holds no row.
pub outdated-holds :
    (l : Lease) (rows : List JobRow)
    → AreDistinct rows
    → Reached l.tenant_id l.job_id (l.fence_token + 1) rows
    → any_where (holds l) rows ≡ false
outdated-holds l rows d (r, hr, k, le) = elim (Bool-cases (any_where (holds l) rows)) [
  | inl found ↦
      let (s, hs, e) = any_where-Has (holds l) rows found in
      let keys = is_job-keys l.tenant_id l.job_id r k in
      let same = Has-unique r s rows d hr hs (rw (keys.0, keys.1) (holds-is_job l s e)) in
      let fence = holds-fence l s e in
      let fence' : s.fence_token ≡ r.fence_token = ap JobRow.fence_token same in
      absurd (omega arith)
  | inr missing ↦ missing
]

-- A lease that no running row of its owner and fence holds writes nothing: each of the seven writes is
-- refused with the stale-fence error.
pub write-stale :
    (l : Lease) (w : Write) (st : Store)
    → any_where (holds l) st.jobs ≡ false
    → write l w st ≡ err stale_fence
unfolding write extend_lease write_progress mark_dispatched complete_job fail_job release_job
    mark_unknown_job
write-stale l (extends now ttl) st h = ground arith
write-stale l (reports doc) st h = ground arith
write-stale l (dispatches attempt) st h = ground arith
write-stale l (completes attempt result now) st h = ground arith
write-stale l (fails attempt retry not_before error now) st h = ground arith
write-stale l (releases attempt now) st h = ground arith
write-stale l (gives_up attempt error now) st h = ground arith
