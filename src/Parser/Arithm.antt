-- ===== src/Parser/Arithm.antt =====
-- The arithmetic parser: parser/arithm.c, from the terms up to `mrsh_parse_arithm_expr`.
pub mod Terms
pub mod Levels
pub mod Entry
pub mod Within
pub mod Readers
pub mod LevelEnds
pub mod TermEnds
pub mod Ends
pub mod Print
pub mod Climbs
pub mod Operators
pub mod Atoms
pub mod Reads
pub mod Printed
pub mod Forms
pub mod RoundTrip
pub mod Start
