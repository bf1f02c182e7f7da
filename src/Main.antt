-- ===== src/Main.antt =====
-- usbfluxd/main.c.
pub mod Options
pub mod Start
pub mod Daemon
pub mod Loop
