-- ===== src/Inference/Admission.antt =====
-- internal/inference/admission.go: one pool of the gate as state, and what happens to it under the
-- mutex as functions. A waiter is a number that no other caller has; the channel `wake` and the
-- context of a caller are events. The map `tenants` is an association list without zero counts.
pub mod Tenants
pub mod Bounds
pub mod Fifo
use mini_enclava_go.Common.{
  ℕ, zero, suc, ◌+◌, ◌-◌, Bool, true, false, not, ◌&&◌, ◌||◌, String, str_eq, List, [], ◌∷◌, ◌++◌,
  Option, none, some, ltb, leb, ◌==◌, if◌then◌else◌,
}

-- `PerTenant <= 0`, `MaxQueued <= 0`: a limit of zero stands for every such value.
pub record ClassLimit : Type 0 where
  pub max_active : ℕ
  pub max_queued : ℕ
  pub per_tenant : ℕ

pub record Waiter : Type 0 where
  pub id : ℕ
  pub tenant : String

-- `granted` holds the waiters that were handed a slot and have not gone on: their flag is set and
-- `wake` is full.
pub record Pool : Type 0 where
  pub limit : ClassLimit
  pub active : ℕ
  pub queued : ℕ
  pub tenants : List (String × ℕ)
  pub waiters : List Waiter
  pub granted : List Waiter

-- `NewAdmission`.
unfoldable pub new_pool : ClassLimit → Pool
new_pool l = record {
  limit = record l { max_active = if l.max_active == 0 then 1 else l.max_active };
  active = 0;
  queued = 0;
  tenants = [];
  waiters = [];
  granted = [];
}

-- `tenants[t]`, `tenants[t]++`, and `tenants[t]--` with the entry deleted where the count is not
-- positive.
unfoldable pub count : String → List (String × ℕ) → ℕ
count t [] = 0
count t ((s, n) ∷ rest) = if str_eq s t then n else count t rest

unfoldable pub increment : String → List (String × ℕ) → List (String × ℕ)
increment t [] = (t, 1) ∷ []
increment t ((s, n) ∷ rest) = if str_eq s t then (s, n + 1) ∷ rest else (s, n) ∷ increment t rest

unfoldable pub decrement : String → List (String × ℕ) → List (String × ℕ)
decrement t [] = []
decrement t ((s, n) ∷ rest) =
    if str_eq s t then (if leb n 1 then rest else (s, n - 1) ∷ rest) else (s, n) ∷ decrement t rest

abbrev pub is_tenant_full : String → Pool → Bool
is_tenant_full t p = ltb 0 p.limit.per_tenant && leb p.limit.per_tenant (count t p.tenants)

abbrev pub is_queue_full : Pool → Bool
is_queue_full p = (p.limit.max_queued == 0) || leb p.limit.max_queued p.queued

-- `waiters.Len() == 0`.
abbrev pub is_none : List Waiter → Bool
is_none [] = true
is_none (w ∷ ws) = false

-- The guards of the two early returns.
abbrev pub has_room : String → Pool → Bool
has_room t p = ltb p.active p.limit.max_active && (is_none p.waiters && not (is_tenant_full t p))

abbrev pub is_refused : String → Pool → Bool
is_refused t p = is_tenant_full t p || is_queue_full p

pub data Answer : Type 0 where
  permit : Answer
  waiting : Answer
  overloaded : Answer

-- The part of `Acquire` before the `select`.
unfoldable pub acquire : ℕ → String → Pool → Answer × Pool
acquire id t p =
    if has_room t p
    then (permit, record p { active = p.active + 1; tenants = increment t p.tenants })
    else if is_refused t p
    then (overloaded, p)
    else (
      waiting,
      record p {
        queued = p.queued + 1;
        tenants = increment t p.tenants;
        waiters = p.waiters ++ record { id = id; tenant = t } ∷ [];
      },
    )

-- The loop of `grantLocked`, on the queue.
unfoldable pub grant_loop : List Waiter → Pool → Pool
grant_loop [] p = p
grant_loop (w ∷ ws) p =
    let next = record p {
      waiters = ws;
      queued = p.queued - 1;
      active = p.active + 1;
      granted = p.granted ++ w ∷ [];
    } in
    let rest = grant_loop ws next in if ltb p.active p.limit.max_active then rest else p

unfoldable pub grant_locked : Pool → Pool
unfolding grant_loop
grant_locked p = grant_loop p.waiters p

-- `Permit.Release`, once.
unfoldable pub release : Pool → Pool
release p = grant_locked (record p { active = p.active - 1 })

unfoldable pub has_waiter : ℕ → List Waiter → Bool
has_waiter id [] = false
has_waiter id (w ∷ ws) = (w.id == id) || has_waiter id ws

unfoldable pub remove : ℕ → List Waiter → List Waiter
remove id [] = []
remove id (w ∷ ws) = if w.id == id then ws else w ∷ remove id ws

-- `case <-w.wake`: the caller goes on with its permit.
unfoldable pub wake : ℕ → Pool → Pool
wake id p = record p { granted = remove id p.granted }

-- `case <-ctx.Done()` of a caller that waits or was granted.
unfoldable pub abandon : ℕ → String → Pool → Pool
abandon id t p =
    let left =
      if has_waiter id p.granted
      then record p { active = p.active - 1; granted = remove id p.granted }
      else record p { waiters = remove id p.waiters; queued = p.queued - 1 } in
    grant_locked (record left { tenants = decrement t left.tenants })
