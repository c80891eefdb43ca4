-- ===== src/Repo.antt =====
-- job_repo.go, job_resolve.go and utils/git.go: how the repository of a job is fetched, checked out,
-- unpacked and removed.
pub mod RefSpecs
pub mod Refs
pub mod Git
pub mod FetchHead
