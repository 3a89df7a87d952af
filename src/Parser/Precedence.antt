-- ===== src/Parser/Precedence.antt =====
-- How the expressions of parse.c are grouped by the precedence of their operators.
pub mod Rules
pub mod Grouped
pub mod Starts
pub mod Behind
pub mod Whole
pub mod Tables
