-- ===== src/Policy.antt =====
-- soma/policy: the risk of an action, the decision on it, and the approvals it needs.
pub mod Model
pub mod Risk
pub mod Approvals
pub mod Engine
pub mod Decisions
pub mod Authority
