-- ===== src/Ir.antt =====
-- The intermediate representation, crates/standardoc-ir/src.
pub mod Hash
pub mod Kinds
pub mod Edge
pub mod Lookup
pub mod Bridge
pub mod Ffi
pub mod Symbol
pub mod CrossWorkspace
