-- ===== src/Examples.antt =====
-- Runs on concrete inputs: a small world for each of the two programs, and one run per theorem that
-- has conditions.
mod Home
mod Logins
mod Cabinet
mod Disk
mod Groups
mod Ticking
mod Recovery
mod Throttling
mod Validators
mod Gateway
mod Handlers
mod Walls
mod Town
mod Joining
mod Raising
mod Daemons
mod Machine
