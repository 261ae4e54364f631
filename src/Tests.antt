-- ===== src/Tests.antt =====
-- Tests: concrete systems, memories and states on which the theorems are applied.
pub mod System
pub mod Small
mod Locks
mod Pools
mod Polls
mod Ports
mod Streams
mod Sockets
mod Owing
mod Closing
mod Threads
mod Start
mod Races
mod Pipes
