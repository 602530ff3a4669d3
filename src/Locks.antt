-- ===== src/Locks.antt =====
-- soma/operation_locks.py: repository operation locks.
pub mod Processes
pub mod Ops
pub mod Owner
pub mod Validity
pub mod Acquire
pub mod Release
pub mod Relaunch
pub mod Binding
pub mod Calls
pub mod Recovery
pub mod Eviction
pub mod Exclusion
