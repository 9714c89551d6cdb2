-- ===== src/BlobStore.antt =====
-- src/infra/blob/memory/memory_blob_store.cpp: `InMemoryBlobStore`, the store of objects that the
-- contract of the ports is tested against. A call returns its result with the new store; the mutex
-- makes it one step.
pub mod Types
pub mod Calls
pub mod Listing
pub mod Prefixes
pub mod Pages
pub mod Keeping
pub mod Keys
pub mod Sweeps
pub mod Puts
pub mod Ensured
pub mod Contents
pub mod Faults
