-- ===== src/Word.antt =====
-- Words and their expansion: shell/word.c, shell/task/word.c, and `mrsh_word_str` of ast.c.
pub mod Str
pub mod Tilde
pub mod Split
pub mod Pattern
pub mod Trim
pub mod Parameter
