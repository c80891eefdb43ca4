-- ===== src/Param.antt =====
-- param.go: parameter definitions, the typed access to parameter values, and the JSON schema.
pub mod Value
pub mod Cast
pub mod Access
pub mod Builder
pub mod Schema
pub mod Lists
pub mod Env
