-- ===== src/Billing/Wide/Division.antt =====
-- `div128` of internal/billing/service.go is the exact quotient and remainder.
use Prim.Native.Nat.{bit_or}
use mini_enclava_go.Common.{
  ℕ, zero, suc, ◌+◌, ◌-◌, ◌*◌, ◌/◌, ◌%◌, ◌^◌, ◌≤◌, ◌<◌, ◌≡◌, refl, ap, ◌∙◌, inl, inr, true, false,
  leb, if◌then◌else◌, arith, Bool-cases, leb→le, bit_and-one, bit_or-add,
}
use Prim.Native.Nat.add
use native.Mathlib.Decide.{dec_lt}
use native.Mathlib.Nat.{
  pow-suc, one-le-pow, mul-add-mod_self_right, mod-eq_of_lt, div-add-mod', mod-lt, add-zero,
  zero-add, mul-le-mul_right, mul-le-mul_left,
}
use mini_enclava_go.Billing.Wide.{DivState, div_step, div_loop, div128}
use mini_enclava_go.Common.Int64.{word, max_int64}

bit-mul-le : (b p : ℕ) → b < 2 → b * p ≤ p
bit-mul-le zero p h = omega arith
bit-mul-le (suc zero) p h = omega arith
bit-mul-le (suc (suc b)) p h = absurd (omega arith)

-- One more binary digit of the remainder by a power of two.
module _ (k w : ℕ) where
  digit : ℕ
  digit = w / 2 ^ k % 2

  low : ℕ
  low = w % 2 ^ k

  low-lt : low < 2 ^ k
  unfolding low
  low-lt = mod-lt w (one-le-pow k 2 (omega arith))

  digits-sum : w ≡ w / 2 ^ k / 2 * 2 ^ suc k + (digit * 2 ^ k + low)
  unfolding digit low
  digits-sum = omega (
    arith,
    div-add-mod' w (2 ^ k),
    ap (λ (t : ℕ). w / 2 ^ k / 2 * t) (pow-suc 2 k),
    ap (λ (t : ℕ). t * 2 ^ k) (div-add-mod' (w / 2 ^ k) 2),
  )

  digits-fit : digit * 2 ^ k + low < 2 ^ suc k
  unfolding digit
  digits-fit = omega (arith, low-lt, pow-suc 2 k, bit-mul-le (w / 2 ^ k % 2) (2 ^ k) (omega arith))

  low-digit : w % 2 ^ suc k ≡ digit * 2 ^ k + low
  low-digit =
      ap (λ (t : ℕ). t % 2 ^ suc k) digits-sum
      ∙ mul-add-mod_self_right (w / 2 ^ k / 2) (2 ^ suc k) (digit * 2 ^ k + low)
      ∙ mod-eq_of_lt digits-fit

-- The new remainder before q is taken off.
shift_in :
    (r b q : ℕ) → r < q → q ≤ 9223372036854775808 → b < 2 → bit_or (r * 2 % word) b ≡ 2 * r + b
shift_in r b q hr hq hb = ground (arith, bit_or-add 1 r b)

set_bit : (k c : ℕ) → bit_or (c * 2 ^ suc k) (2 ^ k) ≡ (2 * c + 1) * 2 ^ k
set_bit k c = ground (
  arith,
  bit_or-add (suc k) c (2 ^ k),
  pow-suc 2 k,
  one-le-pow k 2,
  ap (λ (t : ℕ). c * t) (pow-suc 2 k),
)

-- Long division of the low k bits of w, with r carried in: d is the quotient, r' what is left.
abbrev Divides : ℕ → ℕ → ℕ → ℕ → ℕ → ℕ → Type 0
Divides w q k r d r' = (r * 2 ^ k + w % 2 ^ k ≡ d * q + r') × (r' < q)

module _ (w q k r d r' : ℕ) where
  abbrev next : ℕ
  next = 2 * r + w / 2 ^ k % 2

  Divides-one :
      leb q next ≡ true → Divides w q k (next - q) d r' → Divides w q (suc k) r (2 ^ k + d) r'
  unfolding digit low
  Divides-one t h = (
    omega (
      arith,
      h.0,
      ap (λ (t : ℕ). r * t) (pow-suc 2 k),
      low-digit k w,
      ap (λ (t : ℕ). t * 2 ^ k) (let e : next ≡ next - q + q = omega (arith, leb→le q next t) in e),
    ),
    h.1,
  )

  Divides-zero : leb q next ≡ false → Divides w q k next d r' → Divides w q (suc k) r d r'
  unfolding digit low
  Divides-zero t h = (omega (arith, h.0, ap (λ (t : ℕ). r * t) (pow-suc 2 k), low-digit k w), h.1)

div_loop-suc :
    (i hi lo q : ℕ) (s : DivState)
    → div_loop (suc i) hi lo q s ≡ div_loop i hi lo q (div_step hi lo q i s)
unfolding div_loop
div_loop-suc i hi lo q s = refl

div_loop-zero : (hi lo q : ℕ) (s : DivState) → div_loop 0 hi lo q s ≡ s
unfolding div_loop
div_loop-zero hi lo q s = refl

quotient-one : (k c d : ℕ) → (2 * c + 1) * 2 ^ k + d ≡ c * 2 ^ suc k + (2 ^ k + d)
quotient-one k c d = omega (arith, ap (λ (t : ℕ). c * t) (pow-suc 2 k))

quotient-zero : (k c d : ℕ) → 2 * c * 2 ^ k + d ≡ c * 2 ^ suc k + d
quotient-zero k c d = omega (arith, ap (λ (t : ℕ). c * t) (pow-suc 2 k))

module _ (hi lo q : ℕ) (small : q ≤ 9223372036854775808) where
  hi_step :
      (k c ql r : ℕ)
      → r < q
      → div_step hi lo q (k + 64) (record { quo_hi = c * 2 ^ suc k; quo_lo = ql; rem = r }) ≡ (
          if leb q (2 * r + hi / 2 ^ k % 2)
          then record {
            quo_hi = (2 * c + 1) * 2 ^ k;
            quo_lo = ql;
            rem = 2 * r + hi / 2 ^ k % 2 - q;
          }
          else record { quo_hi = 2 * c * 2 ^ k; quo_lo = ql; rem = 2 * r + hi / 2 ^ k % 2 })
  unfolding div_step
  hi_step k c ql r h = ground (
    arith,
    shift_in r (hi / 2 ^ k % 2) q h small,
    bit_and-one (hi / 2 ^ k),
    set_bit k c,
    ap (λ (t : ℕ). c * t) (pow-suc 2 k),
  )

  -- Bits k - 1 to 0 of the upper word: r carries in, the quotient's bits go to `quo_hi`.
  hi_loop :
      (k c ql r : ℕ)
      → r < q
      → (d : ℕ) × (r' : ℕ) × (div_loop
            (k + 64)
            hi
            lo
            q
            (record { quo_hi = c * 2 ^ k; quo_lo = ql; rem = r })
          ≡ div_loop 64 hi lo q (record { quo_hi = c * 2 ^ k + d; quo_lo = ql; rem = r' }))
        × Divides hi q k r d r'
  hi_loop zero c ql r h = (0, r, rw (add.zero 64, add-zero) refl, (omega arith, h))
  hi_loop (suc k) c ql r h = elim (Bool-cases (leb q (2 * r + hi / 2 ^ k % 2))) [
    | inl t ↦
        let (d, r', e, v) = hi_loop k (2 * c + 1) ql (2 * r + hi / 2 ^ k % 2 - q) (ground arith) in
        (
          2 ^ k + d,
          r',
          rw (add.suc k 64, div_loop-suc, hi_step k c ql r h, t) (rw e (rw (quotient-one k c d))),
          Divides-one hi q k r d r' t v,
        )
    | inr t ↦
        let (d, r', e, v) = hi_loop k (2 * c) ql (2 * r + hi / 2 ^ k % 2) (ground arith) in
        (
          d,
          r',
          rw (add.suc k 64, div_loop-suc, hi_step k c ql r h, t) (rw e (rw (quotient-zero k c d))),
          Divides-zero hi q k r d r' t v,
        )
  ]

  lo_step :
      (k c qh r : ℕ)
      → suc k ≤ 64
      → r < q
      → div_step hi lo q k (record { quo_hi = qh; quo_lo = c * 2 ^ suc k; rem = r }) ≡ (
          if leb q (2 * r + lo / 2 ^ k % 2)
          then record {
            quo_hi = qh;
            quo_lo = (2 * c + 1) * 2 ^ k;
            rem = 2 * r + lo / 2 ^ k % 2 - q;
          }
          else record { quo_hi = qh; quo_lo = 2 * c * 2 ^ k; rem = 2 * r + lo / 2 ^ k % 2 })
  unfolding div_step
  lo_step k c qh r kh h = ground (
    arith,
    shift_in r (lo / 2 ^ k % 2) q h small,
    bit_and-one (lo / 2 ^ k),
    set_bit k c,
    ap (λ (t : ℕ). c * t) (pow-suc 2 k),
  )

  -- Bits k - 1 to 0 of the lower word: r carries in, the quotient's bits go to `quo_lo`.
  lo_loop :
      (k c ql r : ℕ)
      → k ≤ 64
      → r < q
      → (d : ℕ) × (r' : ℕ) × (div_loop k hi lo q
            (record { quo_hi = ql; quo_lo = c * 2 ^ k; rem = r })
          ≡ div_loop 0 hi lo q (record { quo_hi = ql; quo_lo = c * 2 ^ k + d; rem = r' }))
        × Divides lo q k r d r'
  lo_loop zero c ql r kh h = (0, r, rw add-zero refl, (omega arith, h))
  lo_loop (suc k) c ql r kh h = elim (Bool-cases (leb q (2 * r + lo / 2 ^ k % 2))) [
    | inl t ↦
        let (d, r', e, v) =
          lo_loop k (2 * c + 1) ql (2 * r + lo / 2 ^ k % 2 - q) (omega arith) (ground arith) in
        (
          2 ^ k + d,
          r',
          rw (div_loop-suc, lo_step k c ql r kh h, t) (rw e (rw (quotient-one k c d))),
          Divides-one lo q k r d r' t v,
        )
    | inr t ↦
        let (d, r', e, v) =
          lo_loop k (2 * c) ql (2 * r + lo / 2 ^ k % 2) (omega arith) (ground arith) in
        (
          d,
          r',
          rw (div_loop-suc, lo_step k c ql r kh h, t) (rw e (rw (quotient-zero k c d))),
          Divides-zero lo q k r d r' t v,
        )
  ]

abbrev start : DivState
start = record { quo_hi = 0; quo_lo = 0; rem = 0 }

-- A remainder below q carried into one word gives a quotient of one word.
quotient-lt : (w q r d r' : ℕ) → w < word → 0 < q → r < q → r * word + w ≡ d * q + r' → d < word
quotient-lt w q r d r' hw hq hr e = elim (dec_lt d word) [
  | yes h ↦ h
  | no h ↦ absurd (
      omega
        (arith, mul-le-mul_right {m = word} {n = d} q, mul-le-mul_right {m = r + 1} {n = q} word))
]

-- For a positive divisor that is an int64, `div128` is the exact quotient and remainder of the
-- 128-bit numerator, and both words of the quotient are words.
pub div128_exact :
    (hi lo q : ℕ)
    → hi < word
    → lo < word
    → 0 < q
    → q ≤ max_int64
    → let r = div128 hi lo q in
      (hi * word + lo ≡ (r.0.hi * word + r.0.lo) * q + r.1)
      × (r.1 < q)
      × (r.0.hi ≤ hi)
      × (r.0.lo < word)
unfolding div128
div128_exact hi lo q hh hl pos small =
    let (dh, rh, eh, vh) = hi_loop hi lo q (omega arith) 64 0 0 0 pos in
    let (dl, rl, el, vl) = lo_loop hi lo q (omega arith) 64 0 dh rh (omega arith) vh.1 in
    let run : div_loop 128 hi lo q start ≡ record { quo_hi = dh; quo_lo = dl; rem = rl } =
      eh ∙ rw zero-add (el ∙ div_loop-zero hi lo q _ ∙ rw zero-add refl) in
    let part : (lo % word ≡ lo) × (hi % word ≡ hi) = omega arith in
    rw run (
      omega (arith, vh, vl, ap (λ (t : ℕ). t * word) vh.0),
      vl.1,
      omega (arith, vh, mul-le-mul_left {m = 1} {n = q} dh),
      quotient-lt lo q rh dl rl hl pos vh.1 (omega (arith, vl)),
    )
