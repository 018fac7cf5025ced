-- ===== src/Examples.antt =====
-- Concrete runs: a world that meets the contracts, tests, and each theorem at an input.
mod World
mod Outbox
mod System
mod Drains
mod Limits
mod Legacy
mod Guards
mod Loops
mod Nodes
mod Reloads
mod Controls
mod Watches
