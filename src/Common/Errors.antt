-- ===== src/Common/Errors.antt =====
-- Go's pair of a value and an error: a call returns one or the other. `E` is the errors of a package.
use mathlib.Core.Path.{◌≡◌, refl}
use mathlib.Core.Bool.{Bool, true, false}

pub data Outcome {ℓ} (E : Type 0) (A : Type ℓ) : Type ℓ where
  err : E → Outcome E A
  ok : A → Outcome E A

-- `if err != nil { return err }` between two calls, with the value passed on or dropped.
module _ {ℓ κ} {E : Type 0} {A : Type ℓ} {B : Type κ} where
  infixl 5 ◌>>=◌ ◌>>◌
  abbrev pub ◌>>=◌ : Outcome E A → (A → Outcome E B) → Outcome E B
  err e >>= next = err e
  ok a >>= next = next a

  abbrev pub ◌>>◌ : Outcome E A → Outcome E B → Outcome E B
  err e >> next = err e
  ok a >> next = next

  -- A chain that succeeds has a first step that does.
  pub ok_of_bind :
      (first : Outcome E A) (next : A → Outcome E B) {b : B}
      → (first >>= next) ≡ ok b
      → (a : A) × (first ≡ ok a) × (next a ≡ ok b)
  ok_of_bind (err e) next h = cc
  ok_of_bind (ok a) next h = (a, refl, h)

-- The two parts of a result.
pub ok_pair :
    {E A B : Type 0} {a c : A} {b d : B}
    → ◌≡◌ {A = Outcome E (A × B)} (ok (a, b)) (ok (c, d))
    → (c ≡ a) × (d ≡ b)
ok_pair h = (cc h, cc h)

-- A chain of calls for their errors alone.
pub ok_of_then :
    {E B : Type 0} (first : Outcome E (Unit {0})) (next : Outcome E B) {b : B}
    → (first >> next) ≡ ok b
    → (first ≡ ok tt) × (next ≡ ok b)
ok_of_then (ok u) next h = (refl, h)
ok_of_then (err e) next h = cc h

-- `if !b { return e }`.
abbrev pub require : {E : Type 0} → Bool → E → Outcome E (Unit {0})
require false e = err e
require true e = ok tt

-- A guard that a chain passes holds, alone or before another step.
module _ {E : Type 0} (e : E) where
  pub require_ok : (b : Bool) {u : Unit {0}} → require b e ≡ ok u → b ≡ true
  require_ok true h = refl
  require_ok false h = cc h

  pub require_then :
      {B : Type 0} (b : Bool) (next : Outcome E B) {c : B}
      → (require b e >> next) ≡ ok c
      → (b ≡ true) × (next ≡ ok c)
  require_then true next h = (refl, h)
  require_then false next h = cc h
