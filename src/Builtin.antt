-- ===== src/Builtin.antt =====
-- Built-in utilities: builtin/.
pub mod Control
pub mod Getopt
pub mod Unset
pub mod Shift
pub mod Unalias
