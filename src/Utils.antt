-- ===== src/Utils.antt =====
-- usbfluxd/utils.c and utils.h.
pub mod Collection
pub mod FdList
pub mod Memory
pub mod Strings
pub mod Files
pub mod Clock
