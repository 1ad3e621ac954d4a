-- ===== src/Billing/Charge/Snapshot.antt =====
-- `snapshotFor` of internal/billing/service.go.
use mini_enclava_go.Common.{
  ◌≡◌, refl, sym, ap, ◌∙◌, Each, Bool-cases, str_eq, ◌≢◌, ◌⊎◌, inl, inr, String, List, [], ◌∷◌,
  ◌++◌, some, arith, Option-cases, eq_iff,
}
use mathlib.Core.List.{append_assoc, append-nil}
use mini_enclava_go.Common.Int64.{ℤ}
use mini_enclava_go.Billing.Types.{Units, Price, SnapshotRate, PriceSnapshot}
use mini_enclava_go.Common.{ok, ok_of_bind}
use mini_enclava_go.Billing.Wide.{rounding_ceil}
use mini_enclava_go.Billing.Charge.{price_of, snapshot_loop, snapshot_for}

abbrev rate_from : String → Price → SnapshotRate
rate_from k p = record { unit = k; rate_micros = p.rate_micros; unit_quantity = p.unit_quantity }

-- p is the first of the prices for the kind k.
pub record IsFirstPrice (k : String) (prices : List Price) (p : Price) : Type 0 where
  pub before : List Price
  pub after : List Price
  pub split : prices ≡ before ++ p ∷ after
  pub skipped : Each (λ q. q.unit ≢ k) before
  pub unit : p.unit ≡ k

price_of-IsFirstPrice :
    (k : String) (prices : List Price) {p : Price}
    → price_of k prices ≡ some p
    → IsFirstPrice k prices p
unfolding price_of
price_of-IsFirstPrice k [] e = cc e
price_of-IsFirstPrice k (q ∷ prices) {p} e = elim (Bool-cases (str_eq q.unit k)) [
  | inl here ↦
      let same : some q ≡ some p = sym (rw here refl) ∙ e in
      let q_is : q ≡ p = cc same in
      record {
        before = [];
        after = prices;
        split = ap (λ x. x ∷ prices) q_is;
        skipped = tt;
        unit = sym (ap (λ (x : Price). x.unit) q_is) ∙ ground (arith, here, eq_iff q.unit k);
      }
  | inr other ↦
      let rest = price_of-IsFirstPrice k prices {p = p} (sym (rw other refl) ∙ e) in
      record {
        before = q ∷ rest.before;
        after = rest.after;
        split = ap (λ xs. q ∷ xs) rest.split;
        skipped = (λ same. ground (arith, other, same, eq_iff q.unit k), rest.skipped);
        unit = rest.unit;
      }
]

-- Every kind has a price, the first of the kind, its rate stands in the snapshot in the same place, and its currency is
-- the snapshot's or empty.
pub data Prices (prices : List Price) (currency : String) : Units → List SnapshotRate → Type 0 where
  nothing : Prices prices currency [] []
  kind :
      {k : String} {v : ℤ} {units : Units} {rates : List SnapshotRate} (p : Price)
      → IsFirstPrice k prices p
      → (p.currency ≡ currency) ⊎ (p.currency ≡ "")
      → Prices prices currency units rates
      → Prices prices currency ((k, v) ∷ units) (rate_from k p ∷ rates)

-- What the loop does from a snapshot whose currency is known or not yet.
abbrev Extends : List Price → Units → PriceSnapshot → PriceSnapshot → Type 0
Extends prices units snap result =
    ((rates : List SnapshotRate) × (result.rates ≡ snap.rates ++ rates)
      × Prices prices result.currency units rates)
    × ((result.currency ≡ snap.currency) ⊎ (snap.currency ≡ ""))
    × (result.rounding_rule ≡ snap.rounding_rule)

next : String → Price → PriceSnapshot → PriceSnapshot
next k p snap = record snap { rates = snap.rates ++ rate_from k p ∷ []; currency = p.currency }

Extends-kind :
    (prices : List Price) (k : String) (v : ℤ) (units : Units) (snap result : PriceSnapshot)
    (p : Price)
    → price_of k prices ≡ some p
    → (snap.currency ≡ "") ⊎ (snap.currency ≡ p.currency)
    → Extends prices units (next k p snap) result
    → Extends prices ((k, v) ∷ units) snap result
unfolding next
Extends-kind prices k v units snap result p found same ((rates, e, priced), cur, rule) = (
  (
    rate_from k p ∷ rates,
    e ∙ append_assoc snap.rates (rate_from k p ∷ []) rates,
    kind p (price_of-IsFirstPrice k prices found) (ground arith) priced,
  ),
  ground arith,
  rule,
)

snapshot_loop-round :
    (prices : List Price) (k : String) (v : ℤ) (units : Units) (snap result : PriceSnapshot)
    → snapshot_loop prices ((k, v) ∷ units) snap ≡ ok result
    → (p : Price) × (price_of k prices ≡ some p)
      × ((snap.currency ≡ "") ⊎ (snap.currency ≡ p.currency))
      × (snapshot_loop prices units (next k p snap) ≡ ok result)
unfolding snapshot_loop next
snapshot_loop-round prices k v units snap result e = elim (Option-cases (price_of k prices)) [
  | inl missing ↦ cc (rw (missing, snapshot_loop) at e)
  | inr (p, found) ↦ (
    p,
    found,
    ground (arith, found, eq_iff snap.currency "", eq_iff snap.currency p.currency),
    ground (arith, found),
  )
]

snapshot_loop-Extends :
    (prices : List Price) (units : Units) (snap result : PriceSnapshot)
    → snapshot_loop prices units snap ≡ ok result
    → Extends prices units snap result
snapshot_loop-Extends prices [] snap result e =
    let same : result ≡ snap = unfold snapshot_loop in ground arith in
    rw same (([], sym (append-nil snap.rates), nothing), inl refl, refl)
snapshot_loop-Extends prices ((k, v) ∷ units) snap result e =
    let (p, found, same, rest) = snapshot_loop-round prices k v units snap result e in
    Extends-kind prices k v units snap result p found same
      (snapshot_loop-Extends prices units (next k p snap) result rest)

-- A snapshot that is made has one rate for every kind of the estimate, in order, taken from the
-- first price of the kind in the list; the snapshot has a currency, which each of these prices has too,
-- unless its own is empty, and the rule is `ceil`.
pub snapshot_for-Prices :
    (prices : List Price) (estimate : Units) {snap : PriceSnapshot}
    → snapshot_for prices estimate ≡ ok snap
    → Prices prices snap.currency estimate snap.rates
      × (snap.currency ≢ "")
      × (snap.rounding_rule ≡ rounding_ceil)
unfolding snapshot_for
snapshot_for-Prices prices estimate {snap} e =
    let (s, made, kept) = ok_of_bind (snapshot_loop prices estimate _) _ e in
    let (same, set) : (s ≡ snap) × (s.currency ≢ "") = ground (arith, eq_iff s.currency "") in
    let ((rates, all, priced), _, rule) = snapshot_loop-Extends prices estimate _ s made in
    rw (← same) (rw all priced, set, rule)
