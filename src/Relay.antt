-- ===== src/Relay.antt =====
-- Runs of the relay: the events of connected clients and remotes of usbfluxd/client.c and
-- usbfluxd/usbmux_remote.c, one after another.
pub mod Listed
pub mod Sound
pub mod Closing
pub mod Events
pub mod Clients
pub mod Remotes
pub mod Running
pub mod Polling
pub mod Sending
pub mod Connecting
pub mod Asking
pub mod Appearing
