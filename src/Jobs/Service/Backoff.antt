-- ===== src/Jobs/Service/Backoff.antt =====
-- The closed form of `retryDelay`.
use native.Mathlib.Nat.{pow-suc}
use mini_enclava_go.Common.{
  ℕ, zero, suc, ◌+◌, ◌*◌, ◌^◌, ◌≤◌, ◌≡◌, arith, ltb, if◌then◌else◌, Bool-cases, inl, inr,
}
use mini_enclava_go.Common.Int64.{pos, add64}
use mini_enclava_go.Jobs.Service.{retry_delay}

-- The documented cap and the power.
abbrev pub capped : ℕ → ℕ
capped d = if ltb d 30000000000 then d else 30000000000

double : (b : ℕ) → b ≤ 30000000000 → add64 (pos b) (pos b) ≡ pos (b + b)
unfolding add64
double b h = ground arith

pow-pos : (n : ℕ) → 1 ≤ 2 ^ n
pow-pos zero = omega arith
pow-pos (suc n) = let h = pow-pos n in omega (arith, pow-suc 2 n)

product : (b p : ℕ) → b * (p + p) ≡ (b + b) * p
product b p = omega arith

double-pow : (b n : ℕ) → b * 2 ^ suc n ≡ (b + b) * 2 ^ n
double-pow b n =
    let e : 2 ^ suc n ≡ 2 ^ n + 2 ^ n = omega (arith, pow-suc 2 n) in rw e (product b (2 ^ n))

grows : (d p : ℕ) → 1 ≤ p → d ≤ d * p
grows d zero h = absurd (omega arith)
grows d (suc p) h = omega arith

capped-above : (d : ℕ) → 30000000000 ≤ d → capped d ≡ 30000000000
capped-above d h = ground arith

-- A base of at most 30 seconds gives, after n attempts, the base doubled n times, or 30 seconds where
-- that is less; no doubling wraps.
pub retry_delay-capped :
    (b n : ℕ) → b ≤ 30000000000 → retry_delay (pos b) n ≡ pos (capped (b * 2 ^ n))
unfolding retry_delay
retry_delay-capped b zero h = ground arith
retry_delay-capped b (suc n) h = elim (Bool-cases (ltb (b + b) 30000000000)) [
  | inl below ↦
      rw (double b h, double-pow b n, retry_delay-capped (b + b) n (ground arith)) (ground arith)
  | inr above ↦
      let far = grows (b + b) (2 ^ n) (pow-pos n) in
      rw (double b h, double-pow b n, capped-above ((b + b) * 2 ^ n) (ground arith)) (ground arith)
]
