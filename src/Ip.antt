-- ===== src/Ip.antt =====
-- interface-ip.c: addresses, routes and DNS servers of an interface.
pub mod Match
pub mod State
mod Policy
mod Tree
mod Enable
mod Sync
mod Loop
mod Routes
mod Addresses
mod Agree
mod Target
mod Leads
mod Tests
