-- ===== src/Tests.antt =====
-- The theorems at concrete inputs, one module per part of the program.
pub mod Limits
pub mod Names
pub mod Groups
pub mod Lockouts
pub mod Degradations
pub mod Authorities
pub mod Records
pub mod Removals
pub mod Refusals
pub mod Passes
