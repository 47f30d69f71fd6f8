-- ===== src/Task.antt =====
-- Execution of compound commands: shell/task/task.c and shell/task/pipeline.c.
pub mod Run
pub mod Loop
pub mod Command
pub mod Loops
pub mod Lists
