-- ===== src/Pipeline.antt =====
-- The ingestion pipeline, crates/standardoc-core/src/pipeline.
pub mod Diff
pub mod Batch
pub mod Writer
pub mod CJoin
pub mod FfiResolve
pub mod CrossWorkspace
pub mod Examples
