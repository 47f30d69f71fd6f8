-- ===== src/Parser.antt =====
-- The parsers: the input that they share (parser/parser.c), and arithmetic (parser/arithm.c).
pub mod Input
pub mod Arithm
pub mod Sizes
pub mod Source
pub mod Session
pub mod Words
pub mod Grammar
