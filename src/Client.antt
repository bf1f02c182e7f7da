-- ===== src/Client.antt =====
-- usbfluxd/client.c.
pub mod Events
pub mod Output
pub mod Close
pub mod Notify
pub mod Accept
pub mod Lists
pub mod Info
pub mod Command
pub mod Process
pub mod Poll
