-- ===== src/Billing/Charge.antt =====
-- `charge`, `unitMap` and `snapshotFor` of internal/billing/service.go.
pub mod Exact
pub mod Snapshot
use Prim.Native.String.{compare}
use Prim.Native.Nat.{Ordering}
use mini_enclava_go.Common.{
  ℕ, Bool, true, false, not, ◌&&◌, ◌||◌, String, str_eq, List, [], ◌∷◌, ◌++◌, Option, none, some,
  if◌then◌else◌,
}
use mini_enclava_go.Common.Int64.{ℤ, pos, is_negative, ltb_ℤ}
use mini_enclava_go.Billing.Types.{
  Error, Result, price_missing, currency_mismatch, arithmetic_overflow, invalid, Units, Price,
  SnapshotRate, PriceSnapshot, Usage,
}
use mini_enclava_go.Common.{ok, err, ◌>>=◌}
use mini_enclava_go.Billing.Wide.{Big128, zero_total, add_rat_mul, i64, rounding_ceil}

-- `rateOf[k]`: the map is filled in the order of the list, so the last rate of a kind counts.
unfoldable pub rate_of : String → List SnapshotRate → Option SnapshotRate
rate_of k [] = none
rate_of k (r ∷ rs) = elim (rate_of k rs) [
  | some s ↦ some s
  | none ↦ if str_eq r.unit k then some r else none
]

-- The loop of `charge` over the sorted kinds.
charge_loop : PriceSnapshot → Units → Big128 → Result Big128
charge_loop snap [] total = ok total
charge_loop snap ((k, v) ∷ units) total = elim (rate_of k snap.rates) [
  | none ↦ err price_missing
  | some r ↦
      if not (ltb_ℤ (pos 0) r.unit_quantity) || is_negative r.rate_micros
      then err invalid
      else (let t = add_rat_mul total r.rate_micros v r.unit_quantity snap.rounding_rule in
          let rest = charge_loop snap units t in
          if t.overflow then err arithmetic_overflow else rest)
]

pub charge : Units → PriceSnapshot → Result ℤ
charge units snap = do total ← charge_loop snap units zero_total; ok (i64 total)

-- `out[k] = v`, the entries kept in the order of the keys.
unfoldable pub put : String → ℤ → Units → Units
put k v [] = (k, v) ∷ []
put k v ((j, w) ∷ m) = elim (compare k j) [
  | Ordering.lt ↦ (k, v) ∷ (j, w) ∷ m
  | Ordering.eq ↦ (k, v) ∷ m
  | Ordering.gt ↦ (j, w) ∷ put k v m
]

-- The closure `add` of `unitMap`.
unfoldable pub add_kind : String → ℤ → Units → Result Units
add_kind k v out =
    if is_negative v then err invalid else if ltb_ℤ (pos 0) v then ok (put k v out) else ok out

unfoldable pub add_others : List (String × ℤ) → Units → Result Units
add_others [] out = ok out
add_others ((k, v) ∷ rest) out =
    if str_eq k "" then err invalid else (add_kind k v out >>= λ out'. add_others rest out')

unfoldable pub unit_map : Usage → Result Units
unit_map u = do
  a ← add_kind "input" u.input_units []
  b ← add_kind "output" u.output_units a
  c ← add_kind "cached_input" u.cached_input_units b
  add_others u.other_units c

-- `byKind[k]`: the first price of a kind is kept.
unfoldable pub price_of : String → List Price → Option Price
price_of k [] = none
price_of k (p ∷ ps) = if str_eq p.unit k then some p else price_of k ps

unfoldable pub snapshot_loop : List Price → Units → PriceSnapshot → Result PriceSnapshot
snapshot_loop prices [] snap = ok snap
snapshot_loop prices ((k, v) ∷ units) snap = elim (price_of k prices) [
  | none ↦ err price_missing
  | some p ↦
      let rate : SnapshotRate = record {
        unit = k;
        rate_micros = p.rate_micros;
        unit_quantity = p.unit_quantity;
      } in
      let next = record snap { rates = snap.rates ++ rate ∷ []; currency = p.currency } in
      let rest = snapshot_loop prices units next in
      if str_eq snap.currency ""
      then rest
      else if str_eq snap.currency p.currency
      then rest
      else err currency_mismatch
]

unfoldable pub snapshot_for : List Price → Units → Result PriceSnapshot
snapshot_for prices estimate = do
  snap ←
      snapshot_loop prices estimate
        (record { rates = []; currency = ""; rounding_rule = rounding_ceil })
  if str_eq snap.currency "" then err price_missing else ok snap
