-- ===== src/Jobs/Machine/Distinct.antt =====
-- The primary key through every call, and the table that a run of calls leaves.
use mini_enclava_go.Common.{
  ℕ, ◌≡◌, refl, inl, inr, String, Bool, false, ◌||◌, List, [], ◌∷◌, ◌++◌, ok, err, update_where,
  any_where, find_where, arith, Bool-cases, Option-cases, eq_iff,
}
use mini_enclava_go.Jobs.Types.{JobRow, Store, Result, InsertRecord}
use mini_enclava_go.Jobs.Repo.{
  holds, is_job, may_cancel, may_delete, cancelled_row, deleted_row, cancel_job, delete_job,
}
use mini_enclava_go.Jobs.Claiming.{
  claim, sweep, grant as grant_row, next_job, is_claimable, granted,
}
use mini_enclava_go.Jobs.Enqueue.{insert_job, same_key, fresh_row}
use mini_enclava_go.Jobs.Machine.{
  SameKey, Step, quiet, publish, grant, cancel_queued, cancel_running, delete, Call, call, run,
  writes, claims, cancels, deletes, inserts, after, after_insert, write, Evolves,
}
use mini_enclava_go.Jobs.Machine.Keys.{AreDistinct, update_where-AreDistinct}
use mini_enclava_go.Jobs.Machine.Refinement.{
  Written, write-Written, holds-running, sweep-AreDistinct, call-Evolves, Evolves-refl,
  Evolves-trans,
}

pub Step-SameKey : {r s : JobRow} → Step r s → SameKey r s
Step-SameKey (quiet k _ _ _ _ _) = k
Step-SameKey (publish k _ _ _ _ _ _) = k
Step-SameKey (grant k _ _ _ _ _ _ _) = k
Step-SameKey (cancel_queued k _ _ _ _ _) = k
Step-SameKey (cancel_running k _ _ _ _ _) = k
Step-SameKey (delete k _ _ _ _ _) = k

after-AreDistinct :
    (st : Store) (result : Result Store)
    → AreDistinct st.jobs
    → ((st' : Store) → result ≡ ok st' → AreDistinct st'.jobs)
    → AreDistinct (after st result).jobs
after-AreDistinct st (ok st') d h = h st' refl
after-AreDistinct st (err e) d h = d

Written-AreDistinct :
    (l : _) {st st' : Store} → Written l st st' → AreDistinct st.jobs → AreDistinct st'.jobs
Written-AreDistinct l {st} {st'} w d = rw w.jobs (
    update_where-AreDistinct (holds l) w.set (λ r h. Step-SameKey (w.step r (holds-running l r h)))
      st.jobs d)

cancel_job-AreDistinct :
    (tenant id : String) (now : ℕ) (st st' : Store)
    → AreDistinct st.jobs
    → cancel_job tenant id now st ≡ ok st'
    → AreDistinct st'.jobs
unfolding cancel_job cancelled_row
cancel_job-AreDistinct tenant id now st st' d e =
    let set : st'.jobs ≡ update_where (may_cancel tenant id) (cancelled_row now) st.jobs =
      ground arith in
    rw set (
      update_where-AreDistinct (may_cancel tenant id) (cancelled_row now)
        (λ r h. (refl, refl, refl)) st.jobs d)

delete_job-AreDistinct :
    (tenant id : String) (now : ℕ) (st st' : Store)
    → AreDistinct st.jobs
    → delete_job tenant id now st ≡ ok st'
    → AreDistinct st'.jobs
unfolding delete_job
delete_job-AreDistinct tenant id now st st' d e =
    let set : st'.jobs ≡ update_where (may_delete tenant id) (deleted_row now) st.jobs =
      ground arith in
    rw set (
      update_where-AreDistinct (may_delete tenant id) (deleted_row now) (λ r h. (refl, refl, refl))
        st.jobs d)

any_where-append :
    (p : JobRow → Bool) (new : JobRow) (rows : List JobRow)
    → any_where p rows ≡ false
    → p new ≡ false
    → any_where p (rows ++ new ∷ []) ≡ false
unfolding any_where
any_where-append p new [] h e = rw e refl
any_where-append p new (r ∷ rows) h e =
    let rest = any_where-append p new rows (ground arith) e in ground (arith, rest)

is_job-sym : (r s : JobRow) → is_job r.tenant_id r.id s ≡ false → is_job s.tenant_id s.id r ≡ false
is_job-sym r s h = ground (
  arith,
  eq_iff r.tenant_id s.tenant_id,
  eq_iff s.tenant_id r.tenant_id,
  eq_iff r.id s.id,
  eq_iff s.id r.id,
)

-- A row of a new key at the end.
append-AreDistinct :
    (new : JobRow) (rows : List JobRow)
    → any_where (is_job new.tenant_id new.id) rows ≡ false
    → AreDistinct rows
    → AreDistinct (rows ++ new ∷ [])
unfolding any_where
append-AreDistinct new [] absent d = (refl, tt)
append-AreDistinct new (r ∷ rows) absent d = (
  any_where-append (is_job r.tenant_id r.id) new rows d.0 (is_job-sym new r (ground arith)),
  append-AreDistinct new rows (ground arith) d.1,
)

insert_job-AreDistinct :
    (rec : InsertRecord) (now : ℕ) (st : Store)
    → AreDistinct st.jobs
    → AreDistinct (after_insert st (insert_job rec now st)).jobs
unfolding insert_job fresh_row
insert_job-AreDistinct rec now st d =
    elim (Bool-cases
      (any_where (same_key rec) st.jobs || any_where (is_job rec.tenant_id rec.id) st.jobs)) [
        | inl refused ↦ rw refused (elim (Option-cases (find_where (same_key rec) st.jobs)) [
          | inl absent ↦ rw absent d
          | inr (r, found) ↦ rw found d
        ])
        | inr new ↦ rw new (append-AreDistinct (fresh_row rec now) st.jobs (ground arith) d)
      ]

pub claim-AreDistinct :
    (worker : String) (now ttl : ℕ) (attempt : String) (st : Store)
    → AreDistinct st.jobs
    → AreDistinct (claim worker now ttl attempt st).1.jobs
unfolding claim grant_row granted
claim-AreDistinct worker now ttl attempt st d =
    let swept = sweep now st in
    let h = sweep-AreDistinct now st d in
    elim (Option-cases (next_job (is_claimable now swept.attempts) swept.jobs)) [
      | inl nothing ↦ rw (claim, nothing) h
      | inr (r, chosen) ↦
          rw (claim, chosen)
            (update_where-AreDistinct (is_job r.tenant_id r.id) (granted worker now ttl)
              (λ s e. (refl, refl, refl)) swept.jobs h)
    ]

pub call-AreDistinct : (c : Call) (st : Store) → AreDistinct st.jobs → AreDistinct (call c st).jobs
unfolding call
call-AreDistinct (writes l w) st d =
    after-AreDistinct st (write l w st) d
      (λ st' e. Written-AreDistinct l (write-Written l w st st' e) d)
call-AreDistinct (claims worker now ttl attempt) st d =
    claim-AreDistinct worker now ttl attempt st d
call-AreDistinct (cancels tenant id now) st d =
    after-AreDistinct st (cancel_job tenant id now st) d
      (λ st' e. cancel_job-AreDistinct tenant id now st st' d e)
call-AreDistinct (deletes tenant id now) st d =
    after-AreDistinct st (delete_job tenant id now st) d
      (λ st' e. delete_job-AreDistinct tenant id now st st' d e)
call-AreDistinct (inserts rec now) st d = insert_job-AreDistinct rec now st d

-- Where the keys of the table are distinct, every sequence of calls leaves them distinct, moves
-- every row along the machine of one job, and adds only rows that were queued at fence 0 first.
pub run-Evolves :
    (cs : List Call) (st : Store)
    → AreDistinct st.jobs
    → AreDistinct (run cs st).jobs × Evolves st.jobs (run cs st).jobs
unfolding run
run-Evolves [] st d = (d, Evolves-refl st.jobs)
run-Evolves (c ∷ cs) st d =
    let (d', e) = run-Evolves cs (call c st) (call-AreDistinct c st d) in
    (d', Evolves-trans (call-Evolves c st d) e)
