-- ===== src/Tests.antt =====
-- The theorems applied at concrete inputs, and runs of the model.
pub mod Auth
mod Network
pub mod Update
pub mod Vault
pub mod Requests
mod Invocations
mod Paths
mod Service
pub mod Sorting
mod Commands
mod Operator
