-- ===== src/Clock.antt =====
-- clock.go, one module to a type.
pub mod Limits
pub mod OpRef
pub mod Stamp
pub mod Vector
pub mod Frontier
