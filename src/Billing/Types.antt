-- ===== src/Billing/Types.antt =====
-- The records of internal/billing/types.go and repository.go, and the errors of the package. Money
-- and units are int64 values; an instant is a number.
use mini_enclava_go.Common.{String, List, Outcome}
use mini_enclava_go.Common.Int64.{ℤ}

-- The sentinel errors; `invalid` stands for the errors that the package makes by `fmt.Errorf` alone.
pub data Error : Type 0 where
  budget_exceeded price_missing currency_mismatch arithmetic_overflow : Error
  reservation_not_found reservation_state invalid : Error

abbrev pub Result : Type 0 → Type 0
Result A = Outcome Error A

-- Go's `map[UnitKind]int64`, its entries in the order of the keys, which is the order in which
-- the code walks it wherever the order matters.
abbrev pub Units : Type 0
Units = List (String × ℤ)

pub record Price : Type 0 where
  pub unit : String
  pub rate_micros : ℤ
  pub unit_quantity : ℤ
  pub currency : String

pub record SnapshotRate : Type 0 where
  pub unit : String
  pub rate_micros : ℤ
  pub unit_quantity : ℤ

pub record PriceSnapshot : Type 0 where
  pub rates : List SnapshotRate
  pub currency : String
  pub rounding_rule : String

pub record Subject : Type 0 where
  pub kind : String
  pub id : String

-- `other_units` in the order in which the loop over the map meets them, which Go leaves open.
pub record Usage : Type 0 where
  pub input_units : ℤ
  pub output_units : ℤ
  pub cached_input_units : ℤ
  pub other_units : List (String × ℤ)

pub record LiabilityRow : Type 0 where
  pub amount_micros : ℤ
  pub currency : String
  pub units : Units
