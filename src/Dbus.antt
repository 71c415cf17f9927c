-- ===== src/Dbus.antt =====
-- The Secret Service over D-Bus (src/dbus).
pub mod Paths
pub mod Ids
pub mod Aliases
pub mod State
pub mod Clients
pub mod Search
