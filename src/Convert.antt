-- ===== src/Convert.antt =====
-- convert.go: the SDK's records as protobuf messages. The helpers of this file are shared by the
-- children.
mod Defs
pub mod Message
pub mod Enums
pub mod Assets
pub mod Findings
pub mod RoundTrip
pub mod Wire
pub use Defs.*
