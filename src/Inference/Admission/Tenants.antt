-- ===== src/Inference/Admission/Tenants.antt =====
-- The occupancy that internal/inference/admission.go counts for a tenant.
use mini_enclava_go.Common.{
  ℕ, zero, suc, ◌+◌, ◌-◌, ◌≤◌, ◌<◌, ◌≡◌, refl, ◌∙◌, ap, inl, inr, true, false, String, str_eq,
  eq_iff, List, [], ◌∷◌, arith, Bool-cases,
}
use mini_enclava_go.Inference.Admission.{
  ClassLimit, Pool, Answer, permit, waiting, overloaded, new_pool, acquire, release, count,
  increment, grant_locked, grant_loop, has_room, is_refused, is_none, is_tenant_full,
}

pub increment-count : (t : String) (m : List (String × ℕ)) → count t (increment t m) ≡ count t m + 1
unfolding count increment
increment-count t [] = ground (arith, eq_iff t t)
increment-count t ((s, n) ∷ rest) = elim (Bool-cases (str_eq s t)) [
  | inl same ↦ rw same (rw same refl)
  | inr other ↦ rw other (rw other (increment-count t rest))
]

settle : Answer × Pool → Pool
settle (permit, p) = release p
settle (waiting, p) = p
settle (overloaded, p) = p

-- One request of a tenant: its slot is acquired and, when it was, released.
unfoldable pub request : ℕ → String → Pool → Pool
unfolding settle
request id t p = settle (acquire id t p)

unfoldable pub requests : ℕ → ℕ → String → Pool → Pool
requests zero id t p = p
requests (suc n) id t p = requests n id t (request id t p)

-- A pool that nobody uses, at which the tenant is counted n times.
abbrev pub IsIdle : String → ℕ → Pool → Type 0
IsIdle t n p =
    (p.active ≡ 0) × (p.waiters ≡ []) × (count t p.tenants ≡ n) × (1 ≤ p.limit.max_active)

grant_locked-empty : (p : Pool) → p.waiters ≡ [] → grant_locked p ≡ p
unfolding grant_locked grant_loop
grant_locked-empty p e = rw (grant_locked, e) refl

acquire-permit :
    (id : ℕ) (t : String) (p : Pool)
    → has_room t p ≡ true
    → acquire id t p ≡ (permit, record p { active = p.active + 1; tenants = increment t p.tenants })
unfolding acquire
acquire-permit id t p room = rw (acquire, room) refl

-- A slot that is taken and released where nobody waits.
request_lem :
    (id : ℕ) (t : String) (p : Pool)
    → has_room t p ≡ true
    → p.waiters ≡ []
    → request id t p ≡ record p { active = p.active + 1 - 1; tenants = increment t p.tenants }
unfolding request settle release
request_lem id t p room e =
    rw (request, acquire-permit id t p room)
      (grant_locked-empty (record p { active = p.active + 1 - 1; tenants = increment t p.tenants })
        e)

request-IsIdle :
    (id : ℕ) (t : String) (n : ℕ) (p : Pool)
    → IsIdle t n p
    → n < p.limit.per_tenant
    → IsIdle t (n + 1) (request id t p) × ((request id t p).limit ≡ p.limit)
request-IsIdle id t n p (a, w, c, m) less =
    let none_waits : is_none p.waiters ≡ true = rw w refl in
    let room : has_room t p ≡ true = ground arith in
    let e = increment-count t p.tenants in
    rw (request_lem id t p room w) ((omega arith, w, omega arith, m), refl)

requests-IsIdle :
    (k : ℕ) (id : ℕ) (t : String) (n : ℕ) (p : Pool)
    → IsIdle t n p
    → n + k ≤ p.limit.per_tenant
    → IsIdle t (n + k) (requests k id t p) × ((requests k id t p).limit ≡ p.limit)
unfolding requests
requests-IsIdle zero id t n p h less = ((h.0, h.1, omega (arith, h.2), h.3), refl)
requests-IsIdle (suc k) id t n p h less =
    let (idle, same) = request-IsIdle id t n p h (omega arith) in
    let same' : (request id t p).limit.per_tenant ≡ p.limit.per_tenant =
      ap ClassLimit.per_tenant same in
    let (idle', same'') = requests-IsIdle k id t (n + 1) (request id t p) idle (omega arith) in
    ((idle'.0, idle'.1, omega (arith, idle'.2), idle'.3), same'' ∙ same)

overloaded_full :
    (id : ℕ) (t : String) (p : Pool) → is_tenant_full t p ≡ true → (acquire id t p).0 ≡ overloaded
unfolding acquire
overloaded_full id t p full =
    let room : has_room t p ≡ false = ground arith in
    let refused : is_refused t p ≡ true = ground arith in rw (acquire, room, refused) refl

-- The occupancy of a tenant is not given back: with a sublimit, once the tenant has made as many
-- requests as the sublimit allows at a time, one after another and each released, the pool is idle
-- and yet refuses every further request of that tenant.
pub released-overloaded :
    (l : ClassLimit) (id id' : ℕ) (t : String)
    → 1 ≤ l.per_tenant
    → ((requests l.per_tenant id t (new_pool l)).active ≡ 0)
      × ((acquire id' t (requests l.per_tenant id t (new_pool l))).0 ≡ overloaded)
unfolding new_pool count
released-overloaded l id id' t h =
    let p = requests l.per_tenant id t (new_pool l) in
    let ((a, w, c, m), same) =
      requests-IsIdle l.per_tenant id t 0 (new_pool l) (refl, refl, refl, ground arith)
        (omega arith) in
    let same' : p.limit.per_tenant ≡ l.per_tenant = ap ClassLimit.per_tenant same in
    let full : is_tenant_full t p ≡ true = ground arith in (a, overloaded_full id' t p full)
