-- ===== src/Tests.antt =====
-- Runs of the model on small inputs, and the theorems at inputs that meet their hypotheses.
mod Containers
mod Arithmetic
mod Words
mod Tasks
mod Grammar
mod Jobs
mod Parsers
mod Programs
mod Utilities
