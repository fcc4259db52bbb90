-- ===== src/Ops.antt =====
-- ops.go: wire operations, one module to a type.
pub mod Kinds
pub mod GeometryOp
pub mod DocumentOp
