-- ===== src/Examples.antt =====
-- The theorems on small inputs: rules, cohorts, keys, recipes, jobs, requests and rollouts.
pub mod Roles
pub mod Policies
pub mod FleetUpdates
pub mod Requests
pub mod Rollouts
pub mod Cohorts
pub mod Keys
pub mod Enrollments
pub mod Recipes
pub mod Runs
pub mod JobRecords
