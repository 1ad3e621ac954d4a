-- ===== src/Jobs/Reads.antt =====
-- The reads of internal/store/postgres/jobs_repo.go that the service and the dashboard page over. The
-- order of texts is the database's collation, a parameter.
pub mod Owned
use mini_enclava_go.Common.{
  ℕ, zero, suc, ◌+◌, Bool, true, false, ◌&&◌, ◌||◌, String, str_eq, List, [], ◌∷◌, Option, none,
  some, ltb, leb, ◌==◌, length, ok, err, if◌then◌else◌, find_where,
}
use mini_enclava_go.Jobs.Types.{JobRow, Store, Status, Result, job_not_found, is_null}
use mini_enclava_go.Jobs.Repo.{is_job}

unfoldable pub get_job : String → String → Store → Result JobRow
get_job tenant id st = elim (find_where (is_job tenant id) st.jobs) [
  | none ↦ err job_not_found
  | some r ↦ ok r
]

-- `tenant_id = $1 AND submitter_key = $2 AND deleted_at IS NULL`.
abbrev pub is_owned : String → String → JobRow → Bool
is_owned tenant submitter r =
    str_eq r.tenant_id tenant && (str_eq r.submitter_key submitter && is_null r.deleted_at)

abbrev pub is_of_connection : String → String → (Status → Bool) → JobRow → Bool
is_of_connection tenant connection wanted r =
    str_eq r.tenant_id tenant
    && (str_eq r.subject.connection_id connection && (is_null r.deleted_at && wanted r.status))

-- `WHERE`.
unfoldable pub rows_where : (JobRow → Bool) → List JobRow → List JobRow
rows_where p [] = []
rows_where p (r ∷ rows) = let rest = rows_where p rows in if p r then r ∷ rest else rest

-- `LIMIT`.
unfoldable pub limit_to : ℕ → List JobRow → List JobRow
limit_to zero rows = []
limit_to (suc n) [] = []
limit_to (suc n) (r ∷ rows) = r ∷ limit_to n rows

-- `limit <= 0` takes the default.
abbrev pub limit_or_default : ℕ → ℕ
limit_or_default n = if n == 0 then 50 else n

unfoldable pub count_owned_jobs : String → String → Store → ℕ
count_owned_jobs tenant submitter st = length (rows_where (is_owned tenant submitter) st.jobs)

unfoldable pub count_owned_jobs_since : String → String → ℕ → Store → ℕ
count_owned_jobs_since tenant submitter since st =
    length (rows_where (λ r. is_owned tenant submitter r && leb since r.submitted_at) st.jobs)

module _ (text_before : String → String → Bool) where
  -- `ORDER BY submitted_at DESC, id DESC`.
  abbrev pub comes_first : JobRow → JobRow → Bool
  comes_first r s =
      ltb s.submitted_at r.submitted_at
      || ((s.submitted_at == r.submitted_at) && text_before s.id r.id)

  unfoldable pub insert_row : JobRow → List JobRow → List JobRow
  insert_row r [] = r ∷ []
  insert_row r (s ∷ rows) = if comes_first s r then s ∷ insert_row r rows else r ∷ s ∷ rows

  unfoldable pub newest_first : List JobRow → List JobRow
  newest_first [] = []
  newest_first (r ∷ rows) = insert_row r (newest_first rows)

  unfoldable pub list_owned_jobs : String → String → ℕ → Store → List JobRow
  list_owned_jobs tenant submitter limit st =
      limit_to (limit_or_default limit)
        (newest_first (rows_where (is_owned tenant submitter) st.jobs))

  unfoldable pub list_connection_jobs : String → String → (Status → Bool) → ℕ → Store → List JobRow
  list_connection_jobs tenant connection wanted limit st =
      limit_to (limit_or_default limit)
        (newest_first (rows_where (is_of_connection tenant connection wanted) st.jobs))
