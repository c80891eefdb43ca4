-- ===== src/Agent.antt =====
-- The agent: its RPCs, the preparation of a job's repository, and the execution of a job.
pub mod Rpc
pub mod Token
pub mod Connect
pub mod Client
pub mod Prepare
pub mod Execute
pub mod Cleanup
pub mod Reports
pub mod Panics
pub mod Beating
pub mod Bearer
pub mod Once
pub mod Delivery
pub mod Poll
pub mod Session
pub mod Run
