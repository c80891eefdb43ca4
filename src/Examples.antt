-- ===== src/Examples.antt =====
-- Concrete runs of the development's theorems.
mod Values
mod Rounds
mod Programs
mod Beats
mod Clients
mod Probes
mod Pool
mod Jobs
mod Retries
mod Repositories
mod Records
mod Settings
mod Scanners
mod Commands
mod Lives
