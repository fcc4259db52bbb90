-- ===== src/Tests.antt =====
-- Concrete clocks, sequences and documents, and the theorems at work on them.
mod Clocks
mod Sequences
mod Documents
mod Commands
mod Geometries
mod Deltas
mod Stores
mod Snapshots
mod Rebases
mod Views
mod Collections
mod Replicas
