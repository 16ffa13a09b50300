-- ===== src/Client.antt =====
-- The client application (client/app), a file of it to a module.
pub mod Files
pub mod State
pub mod Remote
pub mod Usbip
pub mod Restart
pub mod Nodes
pub mod Frame
pub mod Backoff
pub mod Groups
pub mod Restore
pub mod Watchdog
pub mod Proxmox
pub mod Api
pub mod Tunnels
pub mod Docker
pub mod Startup
