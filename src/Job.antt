-- ===== src/Job.antt =====
-- job.go, job_factory.go, job_targets.go, job_repo_accessors.go: a job and what a scanner reads of
-- it.
pub mod Message
pub mod Defs
pub mod Params
pub mod Targets
pub mod Repository
pub mod Changes
