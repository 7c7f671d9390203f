-- ===== src/Server.antt =====
-- internal/server: the HTTP listener of serve mode.
pub mod Auth
pub mod Handler
pub mod Cidr
pub mod Lifecycle
pub mod Audit
pub mod Status
