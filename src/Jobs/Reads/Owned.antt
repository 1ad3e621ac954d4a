-- ===== src/Jobs/Reads/Owned.antt =====
-- What a page of the caller's jobs holds: `ListOwnedJobs` and `CountOwnedJobs` of
-- internal/storage/postgres/jobs_repo.go.
use mini_enclava_go.Common.{
  ℕ, zero, suc, ◌+◌, ◌≤◌, ◌≡◌, ◌↔◌, refl, ap, ◌∙◌, subst, ◌⊎◌, inl, inr, Bool, true, String, eq_iff,
  List, [], ◌∷◌, length, Each, Any, Option, none, arith, Bool-cases, if◌then◌else◌, ltb,
}
use mini_enclava_go.Jobs.Types.{JobRow, Store}
use mini_enclava_go.Jobs.Reads.{
  is_null, is_owned, rows_where, limit_to, limit_or_default, insert_row, newest_first, comes_first,
  list_owned_jobs, count_owned_jobs,
}

-- A job of the tenant and the submitter that is not deleted.
pub record IsOwned (tenant submitter : String) (r : JobRow) : Type 0 where
  pub tenant_is : r.tenant_id ≡ tenant
  pub submitter_is : r.submitter_key ≡ submitter
  pub kept : r.deleted_at ≡ none

is_null-none : {A : Type 0} (o : Option A) → is_null o ≡ true → o ≡ none
is_null-none none h = refl
is_null-none (Option.some a) h = cc h

is_owned_iff :
    (tenant submitter : String) (r : JobRow)
    → (is_owned tenant submitter r ≡ true) ↔ IsOwned tenant submitter r
is_owned_iff tenant submitter r = (
  λ h. record {
    tenant_is = ground (arith, h, eq_iff r.tenant_id tenant);
    submitter_is = ground (arith, h, eq_iff r.submitter_key submitter);
    kept = is_null-none r.deleted_at (ground (arith, h));
  },
  λ x.
      let kept : is_null r.deleted_at ≡ true = rw x.kept refl in
      ground (
        arith,
        x.tenant_is,
        x.submitter_is,
        kept,
        eq_iff r.tenant_id tenant,
        eq_iff r.submitter_key submitter,
      ),
)

-- r is one of the rows.
abbrev pub IsAmong : JobRow → List JobRow → Type 0
IsAmong r rows = Any (λ s. s ≡ r) rows

Each-implies :
    {P Q : JobRow → Type 0} (rows : List JobRow)
    → ((r : JobRow) → P r → Q r)
    → Each P rows
    → Each Q rows
Each-implies [] f h = tt
Each-implies (r ∷ rows) f (h, rest) = (f r h, Each-implies rows f rest)

module _ (p : JobRow → Bool) where
  -- The rows selected, and nothing else.
  rows_where_sound :
      (rows : List JobRow) → Each (λ r. (p r ≡ true) × IsAmong r rows) (rows_where p rows)
  unfolding rows_where
  rows_where_sound [] = tt
  rows_where_sound (r ∷ rows) =
      let rest =
        Each-implies {P = λ s. (p s ≡ true) × IsAmong s rows}
          {Q = λ s. (p s ≡ true) × IsAmong s (r ∷ rows)} (rows_where p rows)
          (λ s (h, m). (h, inr m)) (rows_where_sound rows) in
      elim (Bool-cases (p r)) [
        | inl selected ↦ rw selected ((selected, inl refl), rest)
        | inr other ↦ rw other rest
      ]

  rows_where_complete :
      (rows : List JobRow) (r : JobRow)
      → IsAmong r rows
      → p r ≡ true
      → IsAmong r (rows_where p rows)
  unfolding rows_where
  rows_where_complete [] r m h = absurd m
  rows_where_complete (s ∷ rows) r (inl same) h =
      let selected : p s ≡ true = ap p same ∙ h in rw selected (inl same)
  rows_where_complete (s ∷ rows) r (inr m) h = elim (Bool-cases (p s)) [
    | inl selected ↦ rw selected (inr (rows_where_complete rows r m h))
    | inr other ↦ rw other (rows_where_complete rows r m h)
  ]

-- The newest rows come first.
abbrev pub IsNewestFirst : List JobRow → Type 0
IsNewestFirst [] = Unit
IsNewestFirst (r ∷ rows) = Each (λ s. s.submitted_at ≤ r.submitted_at) rows × IsNewestFirst rows

limit_to-Each :
    (P : JobRow → Type 0) (n : ℕ) (rows : List JobRow) → Each P rows → Each P (limit_to n rows)
unfolding limit_to
limit_to-Each P zero rows h = tt
limit_to-Each P (suc n) [] h = tt
limit_to-Each P (suc n) (r ∷ rows) (h, rest) = (h, limit_to-Each P n rows rest)

limit_to-IsNewestFirst :
    (n : ℕ) (rows : List JobRow) → IsNewestFirst rows → IsNewestFirst (limit_to n rows)
unfolding limit_to
limit_to-IsNewestFirst zero rows h = tt
limit_to-IsNewestFirst (suc n) [] h = tt
limit_to-IsNewestFirst (suc n) (r ∷ rows) (h, rest) = (
  limit_to-Each (λ s. s.submitted_at ≤ r.submitted_at) n rows h,
  limit_to-IsNewestFirst n rows rest,
)

Each-among :
    (P : JobRow → Type 0) (rows : List JobRow) (r : JobRow) → Each P rows → IsAmong r rows → P r
Each-among P [] r h m = absurd m
Each-among P (s ∷ rows) r (h, rest) (inl same) = subst P same h
Each-among P (s ∷ rows) r (h, rest) (inr m) = Each-among P rows r rest m

-- A row that a limit leaves out is not newer than any row of the page, which is full.
abbrev pub IsLeftOut : ℕ → JobRow → List JobRow → Type 0
IsLeftOut n r page = (length page ≡ n) × Each (λ s. r.submitted_at ≤ s.submitted_at) page

limit_to_complete :
    (n : ℕ) (rows : List JobRow) (r : JobRow)
    → IsNewestFirst rows
    → IsAmong r rows
    → IsAmong r (limit_to n rows) ⊎ IsLeftOut n r (limit_to n rows)
unfolding limit_to
limit_to_complete zero rows r h m = inr (ground arith, tt)
limit_to_complete (suc n) [] r h m = absurd m
limit_to_complete (suc n) (s ∷ rows) r h (inl same) = inl (inl same)
limit_to_complete (suc n) (s ∷ rows) r (h, rest) (inr m) =
    elim (limit_to_complete n rows r rest m) [
      | inl there ↦ inl (inr there)
      | inr (full, older) ↦ inr (
        ground (arith, full),
        (Each-among (λ t. t.submitted_at ≤ s.submitted_at) rows r h m, older),
      )
    ]

-- A page holds as many rows as there are, up to its limit.
abbrev smaller : ℕ → ℕ → ℕ
smaller a b = if ltb a b then a else b

length-limit_to : (n : ℕ) (rows : List JobRow) → length (limit_to n rows) ≡ smaller n (length rows)
unfolding limit_to
length-limit_to zero rows = ground arith
length-limit_to (suc n) [] = ground arith
length-limit_to (suc n) (r ∷ rows) = let h = length-limit_to n rows in ground (arith, h)

module _ (text_before : String → String → Bool) where
  insert_row-Each :
      (P : JobRow → Type 0) (r : JobRow) (rows : List JobRow)
      → P r
      → Each P rows
      → Each P (insert_row text_before r rows)
  unfolding insert_row
  insert_row-Each P r [] e h = (e, tt)
  insert_row-Each P r (s ∷ rows) e (h, rest) = elim (Bool-cases (comes_first text_before s r)) [
    | inl after ↦ rw after (h, insert_row-Each P r rows e rest)
    | inr before ↦ rw before (e, (h, rest))
  ]

  insert_row-IsAmong :
      (r : JobRow) (rows : List JobRow) (s : JobRow)
      → IsAmong s (r ∷ rows)
      → IsAmong s (insert_row text_before r rows)
  unfolding insert_row
  insert_row-IsAmong r [] s m = m
  insert_row-IsAmong r (t ∷ rows) s m = elim (Bool-cases (comes_first text_before t r)) [
    | inr before ↦ rw before m
    | inl after ↦ elim m [
      | inl here ↦ rw after (inr (insert_row-IsAmong r rows s (inl here)))
      | inr (inl next) ↦ rw after (inl next)
      | inr (inr later) ↦ rw after (inr (insert_row-IsAmong r rows s (inr later)))
    ]
  ]

  insert_row-IsNewestFirst :
      (r : JobRow) (rows : List JobRow)
      → IsNewestFirst rows
      → IsNewestFirst (insert_row text_before r rows)
  unfolding insert_row
  insert_row-IsNewestFirst r [] h = (tt, tt)
  insert_row-IsNewestFirst r (s ∷ rows) (h, rest) =
      elim (Bool-cases (comes_first text_before s r)) [
        | inl after ↦
            let older : r.submitted_at ≤ s.submitted_at = ground (arith, after) in
            rw after (
              insert_row-Each (λ t. t.submitted_at ≤ s.submitted_at) r rows older h,
              insert_row-IsNewestFirst r rows rest,
            )
        | inr before ↦
            let older : s.submitted_at ≤ r.submitted_at = ground (arith, before) in
            rw before (
              (
                older,
                Each-implies {P = λ t. t.submitted_at ≤ s.submitted_at}
                    {Q = λ t. t.submitted_at ≤ r.submitted_at} rows (λ t k. omega (arith, k, older))
                    h,
              ),
              (h, rest),
            )
      ]

  newest_first-Each :
      (P : JobRow → Type 0) (rows : List JobRow)
      → Each P rows
      → Each P (newest_first text_before rows)
  unfolding newest_first
  newest_first-Each P [] h = tt
  newest_first-Each P (r ∷ rows) (h, rest) =
      insert_row-Each P r (newest_first text_before rows) h (newest_first-Each P rows rest)

  newest_first-IsAmong :
      (rows : List JobRow) (r : JobRow) → IsAmong r rows → IsAmong r (newest_first text_before rows)
  unfolding newest_first
  newest_first-IsAmong [] r m = m
  newest_first-IsAmong (s ∷ rows) r (inl same) =
      insert_row-IsAmong s (newest_first text_before rows) r (inl same)
  newest_first-IsAmong (s ∷ rows) r (inr m) =
      insert_row-IsAmong s (newest_first text_before rows) r (inr (newest_first-IsAmong rows r m))

  newest_first-IsNewestFirst : (rows : List JobRow) → IsNewestFirst (newest_first text_before rows)
  unfolding newest_first
  newest_first-IsNewestFirst [] = tt
  newest_first-IsNewestFirst (r ∷ rows) =
      insert_row-IsNewestFirst r (newest_first text_before rows) (newest_first-IsNewestFirst rows)

  length-insert_row :
      (r : JobRow) (rows : List JobRow) → length (insert_row text_before r rows) ≡ length rows + 1
  unfolding insert_row
  length-insert_row r [] = omega arith
  length-insert_row r (s ∷ rows) = elim (Bool-cases (comes_first text_before s r)) [
    | inl after ↦ let h = length-insert_row r rows in rw after (omega arith)
    | inr before ↦ rw before (omega arith)
  ]

  length-newest_first : (rows : List JobRow) → length (newest_first text_before rows) ≡ length rows
  unfolding newest_first
  length-newest_first [] = refl
  length-newest_first (r ∷ rows) =
      let h = length-newest_first rows in
      let k = length-insert_row r (newest_first text_before rows) in omega arith

  -- A page of the caller's jobs holds only rows of the table that are of that tenant and submitter and
  -- not deleted, the newest first, and as many of them as the count reports, up to the limit of the
  -- page; and such a row that is not on the page is left out by a full page of rows none of which is
  -- older than it.
  pub list_owned_jobs-IsOwned :
      (tenant submitter : String) (limit : ℕ) (st : Store)
      → let page = list_owned_jobs text_before tenant submitter limit st in
        Each (λ r. IsOwned tenant submitter r × IsAmong r st.jobs) page
        × IsNewestFirst page
        × (length page ≡ smaller (limit_or_default limit) (count_owned_jobs tenant submitter st))
        × ((r : JobRow)
            → IsAmong r st.jobs
            → IsOwned tenant submitter r
            → IsAmong r page ⊎ IsLeftOut (limit_or_default limit) r page)
  unfolding list_owned_jobs count_owned_jobs
  list_owned_jobs-IsOwned tenant submitter limit st =
      let p = is_owned tenant submitter in
      let rows = rows_where p st.jobs in
      let n = limit_or_default limit in
      let Q : JobRow → Type 0 = λ r. IsOwned tenant submitter r × IsAmong r st.jobs in
      let sorted = newest_first-IsNewestFirst rows in
      let selected =
        Each-implies {P = λ r. (p r ≡ true) × IsAmong r st.jobs}
          {Q = λ r. IsOwned tenant submitter r × IsAmong r st.jobs} rows
          (λ r (h, m). ((is_owned_iff tenant submitter r).0 h, m)) (rows_where_sound p st.jobs) in
      (
        limit_to-Each Q n (newest_first text_before rows) (newest_first-Each Q rows selected),
        limit_to-IsNewestFirst n (newest_first text_before rows) sorted,
        length-limit_to n (newest_first text_before rows) ∙ rw (length-newest_first rows) refl,
        λ r m owned. limit_to_complete n (newest_first text_before rows) r sorted (
            newest_first-IsAmong rows r
              (rows_where_complete p st.jobs r m ((is_owned_iff tenant submitter r).1 owned))),
      )
