-- ===== src/Core.antt =====
-- crates/core: the decision logic, with no input or output of its own.
pub mod Ids
pub mod Webhook
pub mod Domain
pub mod Policy
pub mod Plan
