-- ===== src/Job/Laws.antt =====
-- What holds of processes and jobs.
pub mod Status
pub mod Ids
pub mod Wait
