-- ===== src/Storage.antt =====
-- The storage layer, crates/standardoc-core/src/storage.
pub mod Error
pub mod Database
pub mod Serde
pub mod Symbols
pub mod Edges
pub mod Files
pub mod Satellites
pub mod Conv
pub mod Retry
pub mod Index
pub mod DeclLocation
pub mod FfiSides
pub mod CrossWorkspace
