-- ===== src/Batch.antt =====
-- pkg/query/batch_get.go: many items by their keys, in chunks.
pub mod Options
pub mod Keys
pub mod Align
pub mod Get
pub mod Builder
mod Cases
