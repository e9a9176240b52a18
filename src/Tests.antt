-- ===== src/Tests.antt =====
-- The theorems at concrete inputs, and runs that can be followed in the source.
mod Assembly
mod Objects
mod Macros
mod Data
mod Arithmetic
mod Machine
mod Programs
mod Images
mod Linking
mod Illegal
