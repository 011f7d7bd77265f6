-- ===== src/Interface.antt =====
-- interface.c and interface.h: interfaces, their state machine and their configuration.
pub mod State
pub mod Errors
pub mod Events
pub mod Ops
pub mod Config
pub mod Contract
pub mod Steady
pub mod Keeps
pub mod Links
pub mod Reload
pub mod Change
pub mod Protocol
pub mod Run
pub mod Classes
mod Tests
