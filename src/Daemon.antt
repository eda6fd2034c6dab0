-- ===== src/Daemon.antt =====
-- The daemon's side of the protocol: what serves one request of a local program.
pub mod Upload
pub mod Requests
pub mod Maintenance
pub mod Dispatch
