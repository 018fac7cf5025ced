-- ===== src/Observer.antt =====
-- The observation of requests by windows of a minute: the package common/beupobserve.
pub mod Types
pub mod Record
pub mod Registry
pub mod Events
pub mod Total
pub mod Accounted
pub mod Told
pub mod Limits
pub mod Start
pub mod Run
pub mod Kept
