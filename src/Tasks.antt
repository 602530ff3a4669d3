-- ===== src/Tasks.antt =====
-- soma/tasks: the canonical tasks over the durable runs, and their store.
pub mod States
pub mod Mirror
pub mod Tables
pub mod Reserve
pub mod Update
pub mod Records
pub mod Reads
pub mod Create
pub mod Changes
pub mod Indexes
pub mod Identity
pub mod Bindings
pub mod Cas
pub mod Scopes
pub mod Observe
pub mod Branches
pub mod Derive
pub mod Reconcile
pub mod Cancel
pub mod Projection
pub mod Follow
pub mod Settle
pub mod Reconciled
pub mod Repeated
pub mod Idempotent
pub mod Turns
pub mod Startup
pub mod Lookup
pub mod Closed
pub mod Cancelling
