-- ===== src/Remote.antt =====
-- usbfluxd/usbmux_remote.c.
pub mod IdMap
pub mod Close
pub mod Events
pub mod Output
pub mod Dispose
pub mod Connect
pub mod Service
pub mod Mdns
pub mod Result
pub mod Process
pub mod Poll
