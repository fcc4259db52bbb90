-- ===== src/Geometry.antt =====
-- geometry.go: the convergent state of one geometry.
pub mod State
pub mod Parse
pub mod Apply
pub mod Drain
pub mod Local
pub mod Export
