-- ===== src/Metadata.antt =====
-- src/infra/metadata/memory/memory_metadata_repository.cpp: `InMemoryMetadataRepository`, with its
-- version chains (oldest first) and the states of a version. A call takes the reading of the clock
-- in seconds where it needs one, and returns its result with the new repository; the mutex makes a
-- call one step. `Create` is two such steps, here with nothing in between.
pub mod Types
pub mod Claiming
pub mod Records
pub mod Chains
pub mod Indices
pub mod Preservation
pub mod Histories
pub mod ClaimStep
pub mod Lifecycle
pub mod Visibility
