-- ===== src/Tests.antt =====
-- Runs of the daemon's code on small states, and the theorems applied to them.
mod Node
mod Basics
mod Clients
mod Remotes
mod Requests
mod Poll
mod Instances
mod Relay
mod Files
mod Sockets
mod Start
mod Orphan
mod Tool
mod Rounds
mod Logging
