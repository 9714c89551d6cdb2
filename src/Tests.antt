-- ===== src/Tests.antt =====
-- The theorems at concrete inputs, one module for each part of the repository's code.
mod Metadata
mod Locations
mod Leases
mod Services
mod Stores
mod Tasks
mod Transfers
mod Uploads
mod Requests
