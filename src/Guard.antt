-- ===== src/Guard.antt =====
-- The isolation overlay of a node: the package common/beupguard.
pub mod Types
pub mod Bindings
pub mod Sessions
pub mod Leases
pub mod Authorization
pub mod Registry
pub mod Controller
pub mod Run
