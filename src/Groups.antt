-- ===== src/Groups.antt =====
-- soma/parallel_groups.py: groups of runs that are reserved together and started as slots are free.
pub mod Tables
pub mod Reserve
pub mod Refresh
pub mod Claim
pub mod Slots
pub mod Within
pub mod Limits
pub mod Moving
pub mod Progress
pub mod Final
pub mod Starts
