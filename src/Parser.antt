-- ===== src/Parser.antt =====
-- parse.c: the parser. Its functions call one another in a cycle: each takes the recursive ones as
-- the record `Calls`, which `Module` ties on fuel.
pub mod Kinds
pub mod Tokens
pub mod Symbols
pub mod Types
pub mod Exprs
pub mod Operators
pub mod Decls
pub mod Stmts
pub mod Module
pub mod Progress
pub mod Precedence
pub mod Ending
mod Examples
