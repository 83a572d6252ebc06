-- ===== src/Tests.antt =====
-- Concrete inputs for the theorems, and runs of the functions on them.
mod Sample
mod Names
mod Caches
mod Certificates
mod Nodes
mod Queries
mod Records
mod Proxies
mod Packets
mod Captures
mod Windows
mod Devices
mod Setup
