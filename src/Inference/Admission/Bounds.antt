-- ===== src/Inference/Admission/Bounds.antt =====
-- The counters of a pool against the permits that callers hold, through every event.
use mini_enclava_go.Common.{
  ℕ, ◌+◌, ◌-◌, ◌≤◌, ◌≡◌, refl, ◌∙◌, ◌⊎◌, inl, inr, true, false, ◌||◌, String, List, [], ◌∷◌, arith,
  Bool-cases, ltb, ◌==◌, length, length-append,
}
use mini_enclava_go.Inference.Admission.{
  ClassLimit, Waiter, Pool, Answer, permit, waiting, overloaded, new_pool, acquire, grant_loop,
  grant_locked, release, wake, abandon, has_waiter, remove, is_none, has_room, is_refused,
}

-- A pool and the number of permits in the callers' hands.
pub record Gate : Type 0 where
  pub pool : Pool
  pub held : ℕ

pub data Event : Type 0 where
  arrives : (id : ℕ) (tenant : String) → Event
  wakes : (id : ℕ) → Event
  leaves : (id : ℕ) (tenant : String) → Event
  releases : Event

-- An event that is possible: a caller wakes that was granted, leaves that waits or was granted, and
-- releases a permit that is held.
abbrev pub MayHappen : Event → Gate → Type 0
MayHappen (arrives id t) g = Unit {0}
MayHappen (wakes id) g = has_waiter id g.pool.granted ≡ true
MayHappen (leaves id t) g = (has_waiter id g.pool.granted || has_waiter id g.pool.waiters) ≡ true
MayHappen releases g = 1 ≤ g.held

abbrev holders : Answer → ℕ → ℕ
holders permit n = n + 1
holders waiting n = n
holders overloaded n = n

unfoldable pub happens : Event → Gate → Gate
happens (arrives id t) g =
    let (answer, pool) = acquire id t g.pool in record { pool = pool; held = holders answer g.held }
happens (wakes id) g = record { pool = wake id g.pool; held = g.held + 1 }
happens (leaves id t) g = record { pool = abandon id t g.pool; held = g.held }
happens releases g = record { pool = release g.pool; held = g.held - 1 }

-- The counters count, and stay within the limits.
pub record IsCounted (p : Pool) (held : ℕ) : Type 0 where
  pub active : p.active ≡ held + length p.granted
  pub queued : p.queued ≡ length p.waiters
  pub most_active : p.active ≤ p.limit.max_active
  pub most_queued : p.queued ≤ p.limit.max_queued

-- Nobody waits while a slot is free.
abbrev pub IsBusy : Pool → Type 0
IsBusy p = (p.waiters ≡ []) ⊎ (p.active ≡ p.limit.max_active)

length-remove :
    (id : ℕ) (ws : List Waiter) → has_waiter id ws ≡ true → length (remove id ws) + 1 ≡ length ws
unfolding has_waiter remove
length-remove id [] h = cc
length-remove id (w ∷ ws) h = elim (Bool-cases (w.id == id)) [
  | inl same ↦ rw same (omega arith)
  | inr other ↦ let e = length-remove id ws (ground arith) in rw other (omega arith)
]

grant_loop-IsCounted :
    (ws : List Waiter) (p : Pool) (held : ℕ)
    → p.waiters ≡ ws
    → IsCounted p held
    → IsCounted (grant_loop ws p) held × IsBusy (grant_loop ws p)
unfolding grant_loop
grant_loop-IsCounted [] p held e h = (h, inl e)
grant_loop-IsCounted (w ∷ ws) p held e h = elim (Bool-cases (ltb p.active p.limit.max_active)) [
  | inl free ↦ rw free (
      grant_loop-IsCounted ws _ held refl (
        let q : p.queued ≡ length ws + 1 = h.queued ∙ (rw e (omega arith)) in
        let a = h.active in
        let l = length-append p.granted (w ∷ []) in
        let m = h.most_queued in
        record {
          active = omega arith;
          queued = omega arith;
          most_active = ground arith;
          most_queued = omega arith;
        }))
  | inr full ↦ let m = h.most_active in rw full (h, inr (ground arith))
]

grant_locked-IsCounted :
    (p : Pool) (held : ℕ)
    → IsCounted p held
    → IsCounted (grant_locked p) held × IsBusy (grant_locked p)
unfolding grant_locked
grant_locked-IsCounted p held h = grant_loop-IsCounted p.waiters p held refl h

is_none_empty : (ws : List Waiter) → is_none ws ≡ true → ws ≡ []
is_none_empty [] e = refl
is_none_empty (w ∷ ws) e = cc e

-- A caller that is neither let in nor refused finds every slot taken.
busy_full :
    (t : String) (p : Pool)
    → p.active ≤ p.limit.max_active
    → IsBusy p
    → has_room t p ≡ false
    → is_refused t p ≡ false
    → p.active ≡ p.limit.max_active
busy_full t p m (inr full) room refused = full
busy_full t p m (inl empty) room refused =
    let none_waits : is_none p.waiters ≡ true = rw empty refl in ground arith

acquire-IsCounted :
    (id : ℕ) (t : String) (p : Pool) (held : ℕ)
    → IsCounted p held
    → IsBusy p
    → IsCounted (acquire id t p).1 (holders (acquire id t p).0 held) × IsBusy (acquire id t p).1
unfolding acquire
acquire-IsCounted id t p held h b =
    let a = h.active in
    let q = h.queued in
    let ma = h.most_active in
    let mq = h.most_queued in
    elim (Bool-cases (has_room t p)) [
      | inl room ↦
          rw (acquire, room)
            (
              record {
                active = omega arith;
                queued = q;
                most_active = ground arith;
                most_queued = mq;
              },
              inl (is_none_empty p.waiters (ground arith)),
            )
      | inr crowded ↦ elim (Bool-cases (is_refused t p)) [
        | inl refused ↦ rw (acquire, crowded, refused) (h, b)
        | inr queueing ↦
            let l = length-append p.waiters (record { id = id; tenant = t } ∷ []) in
            let full = busy_full t p ma b crowded queueing in
            rw (acquire, crowded, queueing)
              (
                record {
                  active = a;
                  queued = omega arith;
                  most_active = ma;
                  most_queued = ground arith;
                },
                inr full,
              )
      ]
    ]

abandon-IsCounted :
    (id : ℕ) (t : String) (p : Pool) (held : ℕ)
    → (has_waiter id p.granted || has_waiter id p.waiters) ≡ true
    → IsCounted p held
    → IsCounted (abandon id t p) held × IsBusy (abandon id t p)
unfolding abandon
abandon-IsCounted id t p held may h =
    let a = h.active in
    let q = h.queued in
    let ma = h.most_active in
    let mq = h.most_queued in
    elim (Bool-cases (has_waiter id p.granted)) [
      | inl handed ↦
          let l = length-remove id p.granted handed in
          rw (abandon, handed)
            (grant_locked-IsCounted _ held (record {
              active = omega arith;
              queued = q;
              most_active = omega arith;
              most_queued = mq;
            }))
      | inr waits ↦
          let l = length-remove id p.waiters (ground arith) in
          rw (abandon, waits)
            (grant_locked-IsCounted _ held (record {
              active = a;
              queued = omega arith;
              most_active = ma;
              most_queued = omega arith;
            }))
    ]

-- From a gate whose counters count the held permits and the waiters, stay within both limits, and
-- let nobody wait while a slot is free, every possible event leads to such a gate.
happens-IsCounted :
    (e : Event) (g : Gate)
    → MayHappen e g
    → IsCounted g.pool g.held
    → IsBusy g.pool
    → IsCounted (happens e g).pool (happens e g).held × IsBusy (happens e g).pool
unfolding happens wake release
happens-IsCounted (arrives id t) g may h b = acquire-IsCounted id t g.pool g.held h b
happens-IsCounted (wakes id) g may h b =
    let a = h.active in
    let q = h.queued in
    let ma = h.most_active in
    let mq = h.most_queued in
    let l = length-remove id g.pool.granted may in
    (record { active = omega arith; queued = q; most_active = ma; most_queued = mq }, b)
happens-IsCounted (leaves id t) g may h b = abandon-IsCounted id t g.pool g.held may h
happens-IsCounted releases g may h b = grant_locked-IsCounted _ (g.held - 1) (
    let a = h.active in
    let m = h.most_active in
    record {
      active = omega arith;
      queued = h.queued;
      most_active = omega arith;
      most_queued = h.most_queued;
    })

-- The gates that a pool of a limit comes to.
pub data Reachable (l : ClassLimit) : Gate → Type 0 where
  fresh : Reachable l (record { pool = new_pool l; held = 0 })
  next : {g : Gate} (e : Event) → Reachable l g → MayHappen e g → Reachable l (happens e g)

new_pool-IsCounted : (l : ClassLimit) → IsCounted (new_pool l) 0 × IsBusy (new_pool l)
unfolding new_pool
new_pool-IsCounted l = (
  record { active = refl; queued = refl; most_active = omega arith; most_queued = omega arith },
  inl refl,
)

-- However callers arrive, wake, give up and release: the permits that they hold, with the slots handed
-- to callers that have not woken yet, are the active slots and at most the limit; the callers in the
-- queue are counted and at most its limit; and nobody waits while a slot is free.
pub Reachable-IsCounted :
    (l : ClassLimit) (g : Gate) → Reachable l g → IsCounted g.pool g.held × IsBusy g.pool
Reachable-IsCounted l g fresh = new_pool-IsCounted l
Reachable-IsCounted l g (next {g = before} e r may) =
    let (h, b) = Reachable-IsCounted l before r in happens-IsCounted e before may h b
