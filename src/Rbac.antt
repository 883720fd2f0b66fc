-- ===== src/Rbac.antt =====
-- internal/rbac: roles and their rules, cohorts of sprouts, and the policy of roles and users.
pub mod Error
pub mod Role
pub mod Cohort
pub mod Registry
pub mod Stores
pub mod Policy
pub mod Config
