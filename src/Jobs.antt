-- ===== src/Jobs.antt =====
-- internal/jobs and internal/store/postgres/jobs_repo.go: durable jobs under fenced leases.
pub mod Types
pub mod Repo
pub mod Claiming
pub mod Enqueue
pub mod Machine
pub mod Service
pub mod Runner
pub mod Reads
