-- ===== src/Runs.antt =====
-- soma/run_store.py: durable runs, their worker leases, and the compare-and-set update.
pub mod Model
pub mod RunId
pub mod Update
pub mod Cas
pub mod Worker
pub mod Terminal
pub mod Progress
pub mod Evolution
pub mod Writes
pub mod Direct
pub mod Lifecycle
pub mod Exclusion
pub mod Leases
pub mod Keys
pub mod Late
pub mod Publication
pub mod Untouched
