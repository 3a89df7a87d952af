-- ===== src/Parser/Progress.antt =====
-- The parser takes tokens and comes to an end.
pub mod Rules
pub mod Branches
pub mod Loops
pub mod Types
pub mod Exprs
pub mod Operators
pub mod Decls
pub mod Stmts
pub mod Whole
