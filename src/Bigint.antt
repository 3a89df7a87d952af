-- ===== src/Bigint.antt =====
-- The arbitrary precision integers of util.c.
pub mod Repr
pub mod Value
pub mod Cmp
pub mod Sum
pub mod Product
pub mod Magnitude
pub mod Division
pub mod Text
pub mod Machine
mod Examples
