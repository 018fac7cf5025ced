-- ===== src/Transfer.antt =====
-- common/beuptransfer: the durable traffic outbox, its drains and its counter sessions.
pub mod Types
pub mod Samples
pub mod Delta
pub mod Wire
pub mod Worker
pub mod Env
pub mod Contract
pub mod Rules
pub mod Outbox
pub mod Reservation
pub mod Drain
pub mod Rows
pub mod Session
pub mod Open
pub mod Legacy
pub mod System
pub mod Adapter
