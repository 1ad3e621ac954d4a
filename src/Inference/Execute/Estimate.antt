-- ===== src/Inference/Execute/Estimate.antt =====
-- The bounds of an estimate: `operationBounds`, `boundFor` and `checkEstimate` of
-- internal/inference/types.go, and the declaration of cached input in `Execute` of service.go.
use mini_enclava_go.Common.{
  zero, Bool, true, false, not, ◌&&◌, ◌||◌, String, str_eq, List, [], ◌∷◌, Option, none, some, ok,
  err, ◌>>=◌, ◌>>◌, require, if◌then◌else◌,
}
use mini_enclava_go.Common.Int64.{ℤ, pos, is_negative, ltb_ℤ}
use mini_enclava_go.Billing.Types.{Usage}
use mini_enclava_go.Inference.Payload.{unsupported_capability, unbounded, Result}

pub record Bounds : Type 0 where
  pub input : ℤ
  pub output : ℤ
  pub cached_input : ℤ

abbrev pub generative : Bounds
generative = record { input = pos 4194304; output = pos 131072; cached_input = pos 4194304 }

abbrev pub embedding : Bounds
embedding = record { input = pos 4194304; output = pos 0; cached_input = pos 4194304 }

unfoldable pub bound_for : String → Option Bounds
bound_for capability =
    if str_eq capability "chat/completions"
    then some generative
    else if str_eq capability "embeddings"
    then some embedding
    else if str_eq capability "vision"
    then some generative
    else if str_eq capability "responses"
    then some generative
    else if str_eq capability "responses/compact"
    then some generative
    else none

abbrev pub or_unsupported : Option Bounds → Result Bounds
or_unsupported none = err unsupported_capability
or_unsupported (some b) = ok b

abbrev pub is_within : ℤ → ℤ → Bool
is_within v bound = not (is_negative v || ltb_ℤ bound v)

unfoldable pub others_within : List (String × ℤ) → Bool
others_within [] = true
others_within ((k, v) ∷ rest) =
    (not (str_eq k "") && is_within v (pos 4194304)) && others_within rest

abbrev pub is_zero : ℤ → Bool
is_zero (pos zero) = true
is_zero _ = false

abbrev pub has_none : List (String × ℤ) → Bool
has_none [] = true
has_none (x ∷ rest) = false

unfoldable pub check_estimate : String → Usage → Result (Unit {0})
check_estimate capability est = do
  bound ← or_unsupported (bound_for capability)
  require (is_within est.input_units bound.input) unbounded
  require (is_within est.output_units bound.output) unbounded
  require (is_within est.cached_input_units bound.cached_input) unbounded
  require (others_within est.other_units) unbounded
  require
      (not (
        is_zero est.input_units
        && (is_zero est.output_units
            && (is_zero est.cached_input_units && has_none est.other_units))))
      unbounded
  require
      (not (
        is_zero est.input_units
        && (is_zero est.cached_input_units
            && (has_none est.other_units && ltb_ℤ (pos 0) est.output_units))))
      unbounded

-- Any input may come back as cached input.
abbrev pub with_cached : Usage → Usage
with_cached est =
    if ltb_ℤ est.cached_input_units est.input_units
    then record est { cached_input_units = est.input_units }
    else est
