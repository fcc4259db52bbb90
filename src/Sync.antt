-- ===== src/Sync.antt =====
-- sync.go and memstore.go: what replicas exchange and stores keep.
pub mod Delta
