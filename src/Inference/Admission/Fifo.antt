-- ===== src/Inference/Admission/Fifo.antt =====
-- The order in which `grantLocked` of internal/inference/admission.go serves the waiters.
use mini_enclava_go.Common.{
  ◌+◌, ◌-◌, ◌≤◌, ◌≡◌, refl, sym, ◌∙◌, ap, ◌⊎◌, inl, inr, List, [], ◌∷◌, ◌++◌, arith, Bool-cases,
  ltb, length,
}
use mini_enclava_go.Inference.Admission.{Waiter, Pool, grant_loop, grant_locked}

-- The waiters that were handed a slot, first come first: those who wait still come after them, the
-- slots in use grow by their number, and more were not handed out only because no slot is left or
-- nobody waits.
pub record Served (p q : Pool) : Type 0 where
  pub taken : List Waiter
  pub order : p.waiters ≡ taken ++ q.waiters
  pub granted : q.granted ≡ p.granted ++ taken
  pub active : q.active ≡ p.active + length taken
  pub all_served : (q.waiters ≡ []) ⊎ (q.limit.max_active ≤ q.active)
  pub tenants : q.tenants ≡ p.tenants

append-empty : (ws : List Waiter) → ws ++ [] ≡ ws
append-empty [] = refl
append-empty (w ∷ ws) = ap (λ v. w ∷ v) (append-empty ws)

append-cons :
    (vs : List Waiter) (w : Waiter) (ws : List Waiter) → (vs ++ w ∷ []) ++ ws ≡ vs ++ w ∷ ws
append-cons [] w ws = refl
append-cons (v ∷ vs) w ws = ap (λ x. v ∷ x) (append-cons vs w ws)

grant_loop-Served : (ws : List Waiter) (p : Pool) → p.waiters ≡ ws → Served p (grant_loop ws p)
unfolding grant_loop
grant_loop-Served [] p e = record {
  taken = [];
  order = refl;
  granted = sym (append-empty p.granted);
  active = omega arith;
  all_served = inl e;
  tenants = refl;
}
grant_loop-Served (w ∷ ws) p e = elim (Bool-cases (ltb p.active p.limit.max_active)) [
  | inl free ↦
      let next : Pool = record p {
        waiters = ws;
        queued = p.queued - 1;
        active = p.active + 1;
        granted = p.granted ++ w ∷ [];
      } in
      let s = grant_loop-Served ws next refl in
      let a = s.active in
      rw free (record {
        taken = w ∷ s.taken;
        order = e ∙ ap (λ x. w ∷ x) s.order;
        granted = s.granted ∙ append-cons p.granted w s.taken;
        active = omega arith;
        all_served = s.all_served;
        tenants = s.tenants;
      })
  | inr full ↦ rw full (record {
    taken = [];
    order = refl;
    granted = sym (append-empty p.granted);
    active = omega arith;
    all_served = inr (ground arith);
    tenants = refl;
  })
]

-- Freed slots go to the head of the queue, in order, until no slot is left or nobody waits; no
-- tenant's occupancy changes.
pub grant_locked-Served : (p : Pool) → Served p (grant_locked p)
unfolding grant_locked
grant_locked-Served p = grant_loop-Served p.waiters p refl
