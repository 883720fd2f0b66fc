-- ===== src/Saas.antt =====
-- internal/saasapi: the batches of actions on sprouts, and the rollouts of updates.
pub mod Items
pub mod Dispatch
pub mod Actions
pub mod Batches
pub mod PolicyCheck
pub mod Rollout
pub mod UpdatePolicy
pub mod FleetUpdate
