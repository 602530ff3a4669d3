-- ===== src/Tests.antt =====
-- Concrete databases, and the theorems at concrete inputs.
pub mod Sample
pub mod Writes
pub mod Repositories
pub mod Chunks
pub mod Policies
pub mod StaleLocks
pub mod Mirrors
pub mod TaskStores
pub mod ParallelGroups
pub mod Workflows
pub mod Manager
