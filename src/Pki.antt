-- ===== src/Pki.antt =====
-- internal/pki: the identifiers and the keys of sprouts, their tenants and their enrollment.
pub mod SproutId
pub mod Keys
pub mod Tenancy
pub mod Enroll
