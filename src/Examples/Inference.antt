-- ===== src/Examples/Inference.antt =====
-- internal/inference at concrete inputs: a pool of one slot and one place in the queue.
use mini_enclava_go.Common.{◌≡◌, [], ◌∷◌, arith}
use mini_enclava_go.Inference.Admission.{
  ClassLimit, Pool, new_pool, acquire, overloaded, grant_locked, count, increment,
}
use mini_enclava_go.Inference.Admission.Bounds.{
  Gate, arrives, releases, happens, fresh, next, Reachable-IsCounted, IsCounted, IsBusy,
}
use mini_enclava_go.Inference.Admission.Fifo.{Served, grant_locked-Served}
use mini_enclava_go.Inference.Admission.Tenants.{requests, released-overloaded}

abbrev small : ClassLimit
small = record { max_active = 1; max_queued = 1; per_tenant = 2 }

abbrev start : Gate
start = record { pool = new_pool small; held = 0 }

-- Two callers arrive; the first gives its slot back, which goes to the second.
abbrev end_gate : Gate
end_gate = happens releases (happens (arrives 2 "b") (happens (arrives 1 "a") start))

Reachable-IsCounted_example : IsCounted end_gate.pool end_gate.held × IsBusy end_gate.pool
unfolding happens acquire new_pool count increment
Reachable-IsCounted_example =
    Reachable-IsCounted small end_gate
      (next releases (next (arrives 2 "b") (next (arrives 1 "a") fresh tt) tt) (omega arith))

abbrev crowded : Pool
crowded = record {
  limit = small;
  active = 0;
  queued = 2;
  tenants = ("a", 1) ∷ ("b", 1) ∷ [];
  waiters = record { id = 1; tenant = "a" } ∷ record { id = 2; tenant = "b" } ∷ [];
  granted = [];
}

grant_locked-Served_example : Served crowded (grant_locked crowded)
grant_locked-Served_example = grant_locked-Served crowded

released-overloaded_example :
    ((requests 2 1 "a" (new_pool small)).active ≡ 0)
    × ((acquire 3 "a" (requests 2 1 "a" (new_pool small))).0 ≡ overloaded)
released-overloaded_example = released-overloaded small 1 3 "a" (omega arith)
