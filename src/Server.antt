-- ===== src/Server.antt =====
-- The server application (server/app), a part of it to a module.
pub mod State
pub mod Devices
pub mod Notify
pub mod Rename
pub mod Bound
pub mod Share
pub mod Clients
pub mod Supervisor
pub mod Host
pub mod Tunnel
pub mod Frame
pub mod Views
pub mod Startup
