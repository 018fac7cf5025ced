-- ===== src/Guard/Controller.antt =====
-- The durable control of isolation: common/beupguard/controller.go.
pub mod Types
pub mod Envelope
pub mod Records
pub mod Open
pub mod Ack
pub mod Execute
pub mod Bounds
pub mod Verified
pub mod Follow
pub mod Pending
pub mod Record
pub mod Endings
pub mod Steps
pub mod Executed
pub mod Counts
pub mod Results
pub mod Scanned
pub mod Restored
pub mod Opened
pub mod Reopen
pub mod Served
pub mod Lifetime
pub mod Once
