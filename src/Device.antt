-- ===== src/Device.antt =====
-- device.c: the link layer devices and their users.
pub mod Settings
pub mod State
pub mod Ops
pub mod Users
pub mod Invariant
pub mod Primitives
pub mod Links
pub mod Claims
pub mod Keeps
pub mod Releases
pub mod Lifecycle
pub mod Presence
mod Tests
