-- ===== src/Billing/Charge/Exact.antt =====
-- A charge is the exact sum of the rounded terms, or is refused.
use mini_enclava_go.Common.{
  ℕ, ◌+◌, ◌≤◌, ◌<◌, ◌≡◌, refl, sym, ap, ◌∙◌, Bool, false, not, ◌||◌, String, List, [], ◌∷◌, none,
  some, ltb, if◌then◌else◌, arith, Bool-cases, Option-cases, inl, inr,
}
use native.Mathlib.Nat.{zero-add}
use mini_enclava_go.Common.Int64.{ℤ, pos, negsuc, max_int64, half_word, is_negative, ltb_ℤ, Fits}
use mini_enclava_go.Billing.Types.{
  Result, price_missing, invalid, arithmetic_overflow, Units, SnapshotRate, PriceSnapshot,
}
use mini_enclava_go.Common.{ok, err, ◌>>=◌}
use mini_enclava_go.Billing.Wide.{Big128, zero_total, add_rat_mul, i64}
use mini_enclava_go.Billing.Wide.Rounding.{cost, Holds, add_rat_mul-Holds, i64-Holds}
use mini_enclava_go.Billing.Charge.{rate_of, charge_loop, charge}

-- Quantities and rates of a snapshot and units of a map that are non-negative int64 values.
abbrev pub magnitude : ℤ → ℕ
magnitude (pos n) = n
magnitude (negsuc n) = 0

-- The charge over unbounded numbers: the sum of the rounded costs, refused at the first kind
-- without a usable rate, or where the sum passes math.MaxInt64.
unfoldable pub exact_sum : PriceSnapshot → Units → ℕ → Result ℤ
exact_sum snap [] acc = ok (pos acc)
exact_sum snap ((k, v) ∷ units) acc = elim (rate_of k snap.rates) [
  | none ↦ err price_missing
  | some r ↦
      if not (ltb_ℤ (pos 0) r.unit_quantity) || is_negative r.rate_micros
      then err invalid
      else (let sum =
            acc
            + cost snap.rounding_rule (magnitude r.rate_micros) (magnitude v)
                (magnitude r.unit_quantity) in
          let rest = exact_sum snap units sum in
          if ltb max_int64 sum then err arithmetic_overflow else rest)
]

abbrev pub IsCount : ℤ → Type 0
IsCount (pos n) = n < half_word
IsCount (negsuc n) = ⊥

-- What `unitMap` returns: non-negative int64 counts.
abbrev pub AreCounts : Units → Type 0
AreCounts [] = Unit {0}
AreCounts ((k, v) ∷ units) = IsCount v × AreCounts units

abbrev pub RatesFit : List SnapshotRate → Type 0
RatesFit [] = Unit {0}
RatesFit (r ∷ rs) = Fits r.rate_micros × Fits r.unit_quantity × RatesFit rs

rate_of-Fits :
    (k : String) (rates : List SnapshotRate) (r : SnapshotRate)
    → RatesFit rates
    → rate_of k rates ≡ some r
    → Fits r.rate_micros × Fits r.unit_quantity
unfolding rate_of
rate_of-Fits k [] r h e = cc
rate_of-Fits k (x ∷ rs) r h e = elim (Option-cases (rate_of k rs)) [
  | inl last ↦ ground (arith)
  | inr (s, later) ↦ ground (arith, rate_of-Fits k rs s h.2 later)
]

-- A usable rate and a count, as numbers.
abbrev bad_rate : ℤ → ℤ → Bool
bad_rate rate quantity = not (ltb_ℤ (pos 0) quantity) || is_negative rate

step-Holds :
    (t : Big128) (rule : String) (rate v quantity : ℤ) (acc : ℕ)
    → Fits rate
    → Fits quantity
    → IsCount v
    → bad_rate rate quantity ≡ false
    → acc ≤ max_int64
    → Holds t acc
    → Holds
        (add_rat_mul t rate v quantity rule)
        (acc + cost rule (magnitude rate) (magnitude v) (magnitude quantity))
step-Holds t rule (pos a) (pos b) (pos q) acc ha hq hb good h hold =
    add_rat_mul-Holds t rule a b q acc ha hb hq (ground arith) h hold
step-Holds t rule (pos a) (pos b) (negsuc q) acc ha hq hb good h hold = absurd (ground arith)
step-Holds t rule (negsuc a) (pos b) (pos q) acc ha hq hb good h hold = absurd (ground arith)
step-Holds t rule (negsuc a) (pos b) (negsuc q) acc ha hq hb good h hold = absurd (ground arith)
step-Holds t rule rate (negsuc b) quantity acc ha hq hb good h hold = absurd hb

loop_total : PriceSnapshot → Units → Big128 → Result ℤ
loop_total snap units t = charge_loop snap units t >>= λ total. ok (i64 total)

-- One round: with a usable rate the loop goes on exactly while the exact sum is an int64.
charge_round :
    (snap : PriceSnapshot) (k : String) (v : ℤ) (units : Units) (t : Big128) (acc : ℕ)
    (r : SnapshotRate)
    → let t' = add_rat_mul t r.rate_micros v r.unit_quantity snap.rounding_rule in
      let acc' =
        acc
        + cost snap.rounding_rule
            (magnitude r.rate_micros)
            (magnitude v)
            (magnitude r.unit_quantity) in
      rate_of k snap.rates ≡ some r
      → (bad_rate r.rate_micros r.unit_quantity ≡ false → Holds t' acc')
      → (bad_rate r.rate_micros r.unit_quantity ≡ false
          → acc' ≤ max_int64
          → loop_total snap units t' ≡ exact_sum snap units acc')
      → loop_total snap ((k, v) ∷ units) t ≡ exact_sum snap ((k, v) ∷ units) acc
unfolding loop_total charge_loop exact_sum
charge_round snap k v units t acc r found hold rest =
    let acc' : ℕ =
      acc
      + cost snap.rounding_rule (magnitude r.rate_micros) (magnitude v)
          (magnitude r.unit_quantity) in
    rw (found, charge_loop, exact_sum)
      (elim (Bool-cases (bad_rate r.rate_micros r.unit_quantity)) [
        | inl bad ↦ rw bad refl
        | inr good ↦ simp good (elim (Bool-cases (ltb max_int64 acc')) [
          | inl over ↦ simp (over, (hold good).0 ∙ over) refl
          | inr within ↦ simp (within, (hold good).0 ∙ within) (rest good (ground arith))
        ])
      ])

charge_loop-exact :
    (snap : PriceSnapshot) (units : Units) (t : Big128) (acc : ℕ)
    → RatesFit snap.rates
    → AreCounts units
    → acc ≤ max_int64
    → Holds t acc
    → loop_total snap units t ≡ exact_sum snap units acc
unfolding loop_total charge_loop exact_sum
charge_loop-exact snap [] t acc fit counts h hold = ap ok (i64-Holds t acc h hold)
charge_loop-exact snap ((k, v) ∷ units) t acc fit counts h hold =
    elim (Option-cases (rate_of k snap.rates)) [
      | inl missing ↦ rw (missing, charge_loop, exact_sum) refl
      | inr (r, found) ↦
          let fits = rate_of-Fits k snap.rates r fit found in
          let next = λ (good : bad_rate r.rate_micros r.unit_quantity ≡ false).
            step-Holds t snap.rounding_rule r.rate_micros v r.unit_quantity acc fits.0 fits.1
              counts.0 good h hold in
          charge_round snap k v units t acc r found next
            λ good within. charge_loop-exact snap units _ _ fit counts.1 within (next good)
    ]

-- Over int64 rates and counts `charge` is the exact sum of the rounded terms, refused at the first
-- kind without a usable rate and where the sum passes math.MaxInt64.
pub charge-exact_sum :
    (units : Units) (snap : PriceSnapshot)
    → RatesFit snap.rates
    → AreCounts units
    → charge units snap ≡ exact_sum snap units 0
unfolding charge loop_total
charge-exact_sum units snap fit counts =
    charge_loop-exact snap units zero_total 0 fit counts (omega arith) (refl, λ _. (refl, refl))

-- The sum of the rounded costs of all units, each at its rate.
unfoldable pub total_cost : PriceSnapshot → Units → ℕ
total_cost snap [] = 0
total_cost snap ((k, v) ∷ units) =
    (elim (rate_of k snap.rates) [
      | none ↦ 0
      | some r ↦
          cost snap.rounding_rule (magnitude r.rate_micros) (magnitude v)
            (magnitude r.unit_quantity)
    ])
    + total_cost snap units

exact_sum-ok :
    (snap : PriceSnapshot) (units : Units) (acc : ℕ) (c : ℤ)
    → acc ≤ max_int64
    → exact_sum snap units acc ≡ ok c
    → (c ≡ pos (acc + total_cost snap units)) × (acc + total_cost snap units ≤ max_int64)
unfolding exact_sum total_cost
exact_sum-ok snap [] acc c h e = ground arith
exact_sum-ok snap ((k, v) ∷ units) acc c h e = elim (Option-cases (rate_of k snap.rates)) [
  | inl missing ↦ cc (rw (missing, exact_sum) at e)
  | inr (r, found) ↦
      let acc' : ℕ =
        acc
        + cost snap.rounding_rule (magnitude r.rate_micros) (magnitude v)
            (magnitude r.unit_quantity) in
      rw (found, total_cost) (ground (arith, found, exact_sum-ok snap units acc' c))
]

-- A charge that is made is the whole cost, and an int64.
pub charge-total_cost :
    (units : Units) (snap : PriceSnapshot) {c : ℤ}
    → RatesFit snap.rates
    → AreCounts units
    → charge units snap ≡ ok c
    → (c ≡ pos (total_cost snap units)) × (total_cost snap units ≤ max_int64)
charge-total_cost units snap {c} fit counts e =
    rw zero-add at
      (exact_sum-ok snap units 0 c (omega arith) (sym (charge-exact_sum units snap fit counts) ∙ e))
