-- ===== src/Arithm.antt =====
-- Arithmetic expressions: their syntax (include/mrsh/arithm.h), their evaluation (shell/arithm.c).
pub mod Syntax
pub mod Long
pub mod Eval
