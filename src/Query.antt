-- ===== src/Query.antt =====
-- The read side, crates/standardoc-core/src/query.rs and its modules.
pub mod Rows
pub mod Looks
pub mod Graph
pub mod Similarity
pub mod Examples
