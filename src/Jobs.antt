-- ===== src/Jobs.antt =====
-- internal/jobs: what the server records of the jobs of sprouts.
pub mod StatusIndex
pub mod Summary
