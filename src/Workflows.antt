-- ===== src/Workflows.antt =====
-- soma/workflows: the definition of a workflow with its checks, and its store.
pub mod Models
pub mod Graph
pub mod Order
pub mod Tables
pub mod Reads
pub mod Update
pub mod Worker
pub mod Reports
pub mod Steps
pub mod StepUpdate
pub mod Lasting
pub mod Writes
pub mod Direct
pub mod Kept
pub mod Lifecycle
pub mod Stale
pub mod OneChild
