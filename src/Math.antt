-- ===== src/Math.antt =====
-- src/math.c: Pollard's rho on 64-bit numbers, and the self test `math_test`.
pub mod Gcd
pub mod Product
pub mod Random
pub mod Decompose
pub mod Search
pub mod Correct
pub mod Outcome
pub mod Small
mod Examples
