-- ===== src/Archive.antt =====
-- The artifact archive of job_repo.go: the place of each tar entry, decryption, and the extraction
-- loop.
pub mod Clean
pub mod Escape
pub mod Extract
