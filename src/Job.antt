-- ===== src/Job.antt =====
-- Child processes and jobs: shell/process.c and shell/job.c.
pub mod Process
pub mod Table
pub mod Control
pub mod Wait
pub mod Lookup
pub mod Laws
