-- ===== src/UseCases.antt =====
-- src/app/usecases/usecases.cpp: use cases over the repositories in memory. Events and the records
-- of the audit log are left out, but for the answer of the audit that a use case returns.
pub mod Ports
pub mod Copy
pub mod Prepare
pub mod Create
pub mod Claims
pub mod Publishing
pub mod Records
pub mod Leases
pub mod Addresses
pub mod Withdrawal
pub mod Pages
