-- ===== src/Fil.antt =====
-- src/script/fil.c: the scripting language.
pub mod Lexer
pub mod Tokens
pub mod Lexemes
pub mod Blocks
