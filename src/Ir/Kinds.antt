-- ===== src/Ir/Kinds.antt =====
-- crates/standardoc-ir/src/kinds.rs: the vocabulary of symbols and edges.
use standardoc.Base.{String}

pub data Kind : Type 0 where
  callable type value module_kind macro : Kind

pub data EdgeKind : Type 0 where
  calls imports extends implements references uses_type : EdgeKind

pub data EdgeConfidence : Type 0 where
  extracted inferred ambiguous : EdgeConfidence

pub data Visibility : Type 0 where
  public private crate protected : Visibility

pub data SourceOrigin : Type 0 where
  workspace cargo_registry node_modules_dts manual_external : SourceOrigin

pub data Language : Type 0 where
  rust type_script java_script lua vue svelte c : Language

-- `Module` is spelled `module_decl`, since `module` is a reserved word here.
pub data DeclKind : Type 0 where
  module_decl namespace crate struct enum union class interface type_alias : DeclKind
  function method constructor getter setter const static var field : DeclKind
  enum_variant declarative_macro proc_macro decorator : DeclKind
  custom : Language → String → DeclKind

pub data EntryPointKind : Type 0 where
  binary_main public_api ffi_export : EntryPointKind
