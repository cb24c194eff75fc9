-- ===== src/Infoblox.antt =====
-- The package pkg/infoblox: the client that finds, allocates and releases addresses of hosts.
pub mod Config
pub mod Wapi
pub mod Errors
pub mod Records
pub mod Addresses
pub mod Client
pub mod Leases
