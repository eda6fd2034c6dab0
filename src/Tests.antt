-- ===== src/Tests.antt =====
-- Runs of the theorems on concrete data.
mod Sockets
mod Transport
mod Protocol
mod Clients
mod Daemons
mod Registration
mod Texts
mod Sheets
mod Collections
mod Backlogs
mod Samples
mod Targets
mod Metrics
