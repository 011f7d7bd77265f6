-- ===== src/Utils.antt =====
-- utils.c and utils.h: lists with versions, and netmasks.
pub mod Vlist
pub mod Netmask
mod Tests
