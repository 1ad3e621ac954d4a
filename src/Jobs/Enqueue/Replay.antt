-- ===== src/Jobs/Enqueue/Replay.antt =====
-- `Enqueue` of internal/jobs/service.go, sent twice.
use mini_enclava_go.Common.{
  ℕ, ◌≡◌, refl, String, Bool, true, false, ◌||◌, List, [], ◌∷◌, ◌++◌, none, some, any_where,
  find_where, arith,
}
use mini_enclava_go.Jobs.Types.{JobRow, Store, InsertRecord}
use mini_enclava_go.Jobs.Repo.{is_job}
use mini_enclava_go.Jobs.Machine.{SameKey}
use mini_enclava_go.Jobs.Machine.Keys.{AreDistinct}
use mini_enclava_go.Jobs.Enqueue.{fresh_row, same_key, same_identity}

find_where-none :
    (p : JobRow → Bool) (rows : List JobRow) → any_where p rows ≡ false → find_where p rows ≡ none
unfolding any_where find_where
find_where-none p [] h = refl
find_where-none p (r ∷ rows) h =
    let rest = find_where-none p rows (ground arith) in ground (arith, rest)

-- Two requests at new ids that ask for the same.
abbrev Same : InsertRecord → String → InsertRecord
Same rec id = record rec { id = id }

-- The two answers to a new request: the row it inserts, or a refusal.
abbrev is_taken : InsertRecord → Store → Bool
is_taken rec st =
    any_where (same_key rec) st.jobs || any_where (is_job rec.tenant_id rec.id) st.jobs

abbrev inserted : InsertRecord → ℕ → Store → Store
inserted rec now st = record st { jobs = st.jobs ++ fresh_row rec now ∷ [] }

-- The row that a request with this key finds, of the job.
abbrev IsStored : InsertRecord → JobRow → Store → Type 0
IsStored rec job st =
    AreDistinct st.jobs
    × ((r : JobRow) × (find_where (same_key rec) st.jobs ≡ some r)
        × (same_identity rec r ≡ true)
        × SameKey job r)
