-- ===== src/Limiter.antt =====
-- The limits of a node's users: the package `limiter` (limiter.go, dynamic.go).
pub mod Types
pub mod Speed
pub mod Check
pub mod Users
pub mod Online
