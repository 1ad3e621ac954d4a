-- ===== src/Jobs/Machine/Grant.antt =====
-- What `JobsRepo.Claim` of internal/store/postgres/jobs_repo.go grants, and the lease it takes away.
use mini_enclava_go.Common.{
  ℕ, ◌+◌, ◌<◌, ◌≡◌, refl, sym, ◌∙◌, ap, inl, inr, String, Bool, true, List, [], ◌∷◌, Option, none,
  some, err, any_where, update_where, arith, Option-cases, eq_iff,
}
use mini_enclava_go.Jobs.Types.{JobRow, Store, Lease, stale_fence, Status}
use mini_enclava_go.Jobs.Repo.{is_job, holds}
use mini_enclava_go.Jobs.Claiming.{
  claim, sweep, grant as grant_row, next_job, is_claimable, granted, ClaimedJob,
}
use mini_enclava_go.Jobs.Machine.{Call, run, Write, write}
use mini_enclava_go.Jobs.Machine.Keys.{AreDistinct, Has, Has-unique, is_job_refl, Has-any_where}
use mini_enclava_go.Jobs.Machine.Refinement.{next_job-Has, sweep-Evolves, sweep-AreDistinct}
use mini_enclava_go.Jobs.Machine.Distinct.{run-Evolves, claim-AreDistinct}
use mini_enclava_go.Jobs.Machine.Fencing.{
  Reached, Evolves-Reached, outdated-holds, write-stale, holds-is_job, holds-fence,
}

-- The row that was chosen, and what it became.
pub record Granted (worker : String) (now ttl : ℕ) (st : Store) (c : ClaimedJob) (st' : Store)
    : Type 0 where
  pub chosen : JobRow
  pub has : Has chosen (sweep now st).jobs
  pub claimable : is_claimable now (sweep now st).attempts chosen ≡ true
  pub row : c.row ≡ granted worker now ttl chosen
  pub has_row : Has c.row st'.jobs
  pub tenant : c.lease.tenant_id ≡ chosen.tenant_id
  pub job : c.lease.job_id ≡ chosen.id
  pub owner : c.lease.owner ≡ worker
  pub fence : c.lease.fence_token ≡ chosen.fence_token + 1

claim-none :
    (worker : String) (now ttl : ℕ) (attempt : String) (st : Store)
    → next_job (is_claimable now (sweep now st).attempts) (sweep now st).jobs ≡ none
    → claim worker now ttl attempt st ≡ (none, sweep now st)
unfolding claim
claim-none worker now ttl attempt st h = rw (claim, h) refl

claim-some :
    (worker : String) (now ttl : ℕ) (attempt : String) (st : Store) (r : JobRow)
    → next_job (is_claimable now (sweep now st).attempts) (sweep now st).jobs ≡ some r
    → claim worker now ttl attempt st ≡ (
      some (grant_row worker now ttl attempt r (sweep now st)).0,
      (grant_row worker now ttl attempt r (sweep now st)).1,
    )
unfolding claim
claim-some worker now ttl attempt st r h = rw (claim, h) refl

pub update_where-Has :
    (p : JobRow → Bool) (f : JobRow → JobRow) (r : JobRow) (rows : List JobRow)
    → Has r rows
    → p r ≡ true
    → Has (f r) (update_where p f rows)
unfolding update_where
update_where-Has p f r [] h e = absurd h
update_where-Has p f r (x ∷ rows) (inl same) e = inl (rw (same, e) refl)
update_where-Has p f r (x ∷ rows) (inr h) e = inr (update_where-Has p f r rows h e)

grant-Granted :
    (worker : String) (now ttl : ℕ) (attempt : String) (st : Store) (r : JobRow)
    → next_job (is_claimable now (sweep now st).attempts) (sweep now st).jobs ≡ some r
    → Granted worker now ttl st
        (grant_row worker now ttl attempt r (sweep now st)).0
        (grant_row worker now ttl attempt r (sweep now st)).1
unfolding grant_row granted
grant-Granted worker now ttl attempt st r e =
    let (h, hr) = next_job-Has (is_claimable now (sweep now st).attempts) (sweep now st).jobs e in
    record {
      chosen = r;
      has = hr;
      claimable = h;
      row = refl;
      has_row =
          update_where-Has (is_job r.tenant_id r.id) (granted worker now ttl) r (sweep now st).jobs
            hr (is_job_refl r);
      tenant = refl;
      job = refl;
      owner = refl;
      fence = refl;
    }

pub claim-Granted :
    (worker : String) (now ttl : ℕ) (attempt : String) (st st' : Store) (c : ClaimedJob)
    → claim worker now ttl attempt st ≡ (some c, st')
    → Granted worker now ttl st c st'
claim-Granted worker now ttl attempt st st' c e =
    elim (Option-cases (next_job (is_claimable now (sweep now st).attempts) (sweep now st).jobs)) [
      | inl nothing ↦
          let none' : (none, sweep now st) ≡ (some c, st') =
            sym (claim-none worker now ttl attempt st nothing) ∙ e in
          cc none'
      | inr (r, chosen) ↦
          let g = grant_row worker now ttl attempt r (sweep now st) in
          let some' : (some g.0, g.1) ≡ (some c, st') =
            sym (claim-some worker now ttl attempt st r chosen) ∙ e in
          let row : c ≡ g.0 = cc some' in
          let store : st' ≡ g.1 = cc some' in
          rw (row, store) (grant-Granted worker now ttl attempt st r chosen)
    ]

claimed-running :
    (worker : String) (now ttl : ℕ) (r : JobRow)
    → (granted worker now ttl r).status ≡ Status.running
unfolding granted
claimed-running worker now ttl r = refl

granted-holds :
    (worker : String) (now ttl : ℕ) (r : JobRow) (l : Lease)
    → l.tenant_id ≡ r.tenant_id
    → l.job_id ≡ r.id
    → l.owner ≡ worker
    → l.fence_token ≡ r.fence_token + 1
    → holds l (granted worker now ttl r) ≡ true
unfolding granted
granted-holds worker now ttl r l t j o f =
    ground (arith, eq_iff r.tenant_id l.tenant_id, eq_iff r.id l.job_id, eq_iff worker l.owner)

-- A job that a claim grants was not asked to stop and is not deleted, and the lease that is returned
-- holds the granted row and a row of the table that the claim leaves.
pub claim-holds :
    (worker : String) (now ttl : ℕ) (attempt : String) (st st' : Store) (c : ClaimedJob)
    → claim worker now ttl attempt st ≡ (some c, st')
    → (c.row.cancel_requested_at ≡ none)
      × (c.row.deleted_at ≡ none)
      × (holds c.lease c.row ≡ true)
      × (any_where (holds c.lease) st'.jobs ≡ true)
unfolding granted
claim-holds worker now ttl attempt st st' c e =
    let g = claim-Granted worker now ttl attempt st st' c e in
    let hold : holds c.lease c.row ≡ true =
      rw g.row (granted-holds worker now ttl g.chosen c.lease g.tenant g.job g.owner g.fence) in
    (
      rw g.row (ground (arith, g.claimable)),
      rw g.row (ground (arith, g.claimable)),
      hold,
      Has-any_where (holds c.lease) c.row st'.jobs g.has_row hold,
    )

-- The row that the lease of a claim names has the fence of the lease.
claim-Reached :
    (worker : String) (now ttl : ℕ) (attempt : String) (st st' : Store) (c : ClaimedJob)
    → claim worker now ttl attempt st ≡ (some c, st')
    → Reached c.lease.tenant_id c.lease.job_id c.lease.fence_token st'.jobs
claim-Reached worker now ttl attempt st st' c e =
    let g = claim-Granted worker now ttl attempt st st' c e in
    let h = (claim-holds worker now ttl attempt st st' c e).2 in
    let fence = holds-fence c.lease c.row h in
    (c.row, g.has_row, holds-is_job c.lease c.row h, omega arith)

-- A claim of a job whose row reached n grants a greater fence.
claim-fence :
    (worker : String) (now ttl : ℕ) (attempt : String) (st st' : Store) (c : ClaimedJob) (n : ℕ)
    → AreDistinct st.jobs
    → Reached c.lease.tenant_id c.lease.job_id n st.jobs
    → claim worker now ttl attempt st ≡ (some c, st')
    → n < c.lease.fence_token
claim-fence worker now ttl attempt st st' c n d reached e =
    let g = claim-Granted worker now ttl attempt st st' c e in
    let (r, hr, k, le) =
      Evolves-Reached c.lease.tenant_id c.lease.job_id n (sweep-Evolves now st) reached in
    let same =
      Has-unique g.chosen r (sweep now st).jobs (sweep-AreDistinct now st d) g.has hr
        (rw (sym g.tenant, sym g.job) k) in
    let fence : r.fence_token ≡ g.chosen.fence_token = ap JobRow.fence_token same in
    let e' = g.fence in omega arith

claim-AreDistinct_at :
    (worker : String) (now ttl : ℕ) (attempt : String) (st : Store) (o : Option ClaimedJob)
    (st' : Store)
    → AreDistinct st.jobs
    → claim worker now ttl attempt st ≡ (o, st')
    → AreDistinct st'.jobs
claim-AreDistinct_at worker now ttl attempt st o st' d e =
    let same : (claim worker now ttl attempt st).1 ≡ st' = ap (λ x. x.1) e in
    rw (sym same) (claim-AreDistinct worker now ttl attempt st d)

-- After a claim has granted a job, whatever calls were made since, and another claim has granted the
-- same job, whatever calls follow: the second lease has a greater fence, and every write under the
-- first is refused with the stale-fence error. Keys of the table are distinct at the start.
pub fenced_off :
    (w₁ : String) (now₁ ttl₁ : ℕ) (a₁ : String) (st : Store) (c₁ : ClaimedJob) (st₁ : Store)
    (between : List Call) (w₂ : String) (now₂ ttl₂ : ℕ) (a₂ : String) (c₂ : ClaimedJob)
    (st₂ : Store) (later : List Call)
    → AreDistinct st.jobs
    → claim w₁ now₁ ttl₁ a₁ st ≡ (some c₁, st₁)
    → claim w₂ now₂ ttl₂ a₂ (run between st₁) ≡ (some c₂, st₂)
    → c₂.lease.tenant_id ≡ c₁.lease.tenant_id
    → c₂.lease.job_id ≡ c₁.lease.job_id
    → (c₁.lease.fence_token < c₂.lease.fence_token)
      × ((w : Write) → write c₁.lease w (run later st₂) ≡ err stale_fence)
fenced_off w₁ now₁ ttl₁ a₁ st c₁ st₁ between w₂ now₂ ttl₂ a₂ c₂ st₂ later d e₁ e₂ tenant job =
    let d₁ = claim-AreDistinct_at w₁ now₁ ttl₁ a₁ st (some c₁) st₁ d e₁ in
    let (d₁', moves) = run-Evolves between st₁ d₁ in
    let reached =
      Evolves-Reached c₁.lease.tenant_id c₁.lease.job_id c₁.lease.fence_token moves
        (claim-Reached w₁ now₁ ttl₁ a₁ st st₁ c₁ e₁) in
    let less =
      claim-fence w₂ now₂ ttl₂ a₂ (run between st₁) st₂ c₂ c₁.lease.fence_token d₁'
        (rw (tenant, job) reached) e₂ in
    let d₂ = claim-AreDistinct_at w₂ now₂ ttl₂ a₂ (run between st₁) (some c₂) st₂ d₁' e₂ in
    let (d₂', moves') = run-Evolves later st₂ d₂ in
    let (r, hr, k, le) = claim-Reached w₂ now₂ ttl₂ a₂ (run between st₁) st₂ c₂ e₂ in
    let beyond : Reached c₁.lease.tenant_id c₁.lease.job_id (c₁.lease.fence_token + 1) st₂.jobs =
      (r, hr, rw (sym tenant, sym job) k, omega arith) in
    (
      less,
      λ w. write-stale c₁.lease w (run later st₂) (
          outdated-holds c₁.lease (run later st₂).jobs d₂' (
            Evolves-Reached c₁.lease.tenant_id c₁.lease.job_id (c₁.lease.fence_token + 1) moves'
              beyond)),
    )
