-- ===== src/Document.antt =====
-- document.go: the feature-collection replica.
pub mod New
pub mod State
pub mod Base
pub mod Tally
pub mod Registers
pub mod Apply
pub mod Merge
pub mod Command
pub mod Outbox
pub mod Collection
pub mod View
