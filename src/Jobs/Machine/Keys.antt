-- ===== src/Jobs/Machine/Keys.antt =====
-- The primary key (tenant_id, id) of the jobs table: no call makes two rows of one key.
use mini_enclava_go.Common.{
  ◌≡◌, refl, ap, sym, ◌∙◌, ◌⊎◌, inl, inr, String, Bool, true, false, ◌||◌, List, [], ◌∷◌,
  update_where, any_where, arith, Bool-cases, eq_iff,
}
use mini_enclava_go.Jobs.Types.{JobRow}
use mini_enclava_go.Jobs.Repo.{is_job}
use mini_enclava_go.Jobs.Machine.{SameKey}

abbrev pub AreDistinct : List JobRow → Type 0
AreDistinct [] = Unit {0}
AreDistinct (r ∷ rows) = (any_where (is_job r.tenant_id r.id) rows ≡ false) × AreDistinct rows

-- A row of a table.
abbrev pub Has : JobRow → List JobRow → Type 0
Has r [] = ⊥
Has r (x ∷ rows) = (x ≡ r) ⊎ Has r rows

pub is_job_refl : (r : JobRow) → is_job r.tenant_id r.id r ≡ true
is_job_refl r = ground (arith, eq_iff r.tenant_id r.tenant_id, eq_iff r.id r.id)

pub is_job-keys :
    (tenant id : String) (r : JobRow)
    → is_job tenant id r ≡ true
    → (r.tenant_id ≡ tenant) × (r.id ≡ id)
is_job-keys tenant id r h = ground (arith, eq_iff r.tenant_id tenant, eq_iff r.id id)

is_job-SameKey :
    (tenant id : String) (r s : JobRow) → SameKey r s → is_job tenant id s ≡ is_job tenant id r
is_job-SameKey tenant id r s k = rw (k.0, k.1) refl

pub Has-any_where :
    (p : JobRow → Bool) (r : JobRow) (rows : List JobRow)
    → Has r rows
    → p r ≡ true
    → any_where p rows ≡ true
unfolding any_where
Has-any_where p r [] h e = absurd h
Has-any_where p r (x ∷ rows) (inl same) e = rw (same, e) refl
Has-any_where p r (x ∷ rows) (inr rest) e = ground (arith, Has-any_where p r rows rest e)

-- Where keys are distinct, a row with the key of r is r.
pub Has-unique :
    (r s : JobRow) (rows : List JobRow)
    → AreDistinct rows
    → Has r rows
    → Has s rows
    → is_job r.tenant_id r.id s ≡ true
    → s ≡ r
Has-unique r s [] d hr hs e = absurd hr
Has-unique r s (x ∷ rows) d (inl er) (inl es) e = sym es ∙ er
Has-unique r s (x ∷ rows) d (inl er) (inr hs) e =
    cc (Has-any_where (is_job x.tenant_id x.id) s rows hs (rw er e), d.0)
Has-unique r s (x ∷ rows) d (inr hr) (inl es) e =
    let keys = is_job-keys r.tenant_id r.id s e in
    cc (
      Has-any_where (is_job x.tenant_id x.id) r rows hr (rw (es, keys.0, keys.1) (is_job_refl r)),
      d.0,
    )
Has-unique r s (x ∷ rows) d (inr hr) (inr hs) e = Has-unique r s rows d.1 hr hs e

module _ (p : JobRow → Bool) (f : JobRow → JobRow)
    (keeps : (r : JobRow) → p r ≡ true → SameKey r (f r)) where
  -- An update that keeps keys finds the same keys.
  pub any_where-update_where :
      (tenant id : String) (rows : List JobRow)
      → any_where (is_job tenant id) (update_where p f rows) ≡ any_where (is_job tenant id) rows
  unfolding any_where update_where
  any_where-update_where tenant id [] = refl
  any_where-update_where tenant id (r ∷ rows) = elim (Bool-cases (p r)) [
    | inl selected ↦
        rw (selected, is_job-SameKey tenant id r (f r) (keeps r selected))
          (ap (λ (b : Bool). is_job tenant id r || b) (any_where-update_where tenant id rows))
    | inr other ↦
        rw other
          (ap (λ (b : Bool). is_job tenant id r || b) (any_where-update_where tenant id rows))
  ]

  pub update_where-AreDistinct :
      (rows : List JobRow) → AreDistinct rows → AreDistinct (update_where p f rows)
  unfolding update_where
  update_where-AreDistinct [] d = tt
  update_where-AreDistinct (r ∷ rows) d =
      let apart = any_where-update_where r.tenant_id r.id rows ∙ d.0 in
      (
        elim (Bool-cases (p r)) [
          | inl selected ↦ let keys = keeps r selected in rw (selected, keys.0, keys.1) apart
          | inr other ↦ rw other apart
        ],
        update_where-AreDistinct rows d.1,
      )
