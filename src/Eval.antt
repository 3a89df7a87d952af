-- ===== src/Eval.antt =====
-- eval.c: the evaluator of constant expressions, on the values that are booleans, bytes, integers
-- and floating point numbers. The other values, and the arithmetic of the machine's floating point
-- numbers, are parameters.
pub mod Types
pub mod Values
pub mod Operators
pub mod Unary
pub mod Range
pub mod Arithmetic
pub mod Wrapping
pub mod Negate
pub mod Divide
pub mod Compare
mod Examples
