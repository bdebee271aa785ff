-- ===== src/Ir/Symbol.antt =====
-- What an extractor reports of one file: symbols (symbol.rs, signature.rs, location.rs,
-- attribute.rs, language_kind.rs), call sites, documents, FFI bindings, and the file itself
-- (extracted.rs), all in crates/standardoc-ir/src.
use standardoc.Base.{String, ℕ, Bool, Option, List}
use standardoc.Ir.Kinds.{Kind, Visibility, SourceOrigin, Language, DeclKind, EntryPointKind}
use standardoc.Ir.Hash.{Blake3Hash}
use standardoc.Ir.Ffi.{FfiAbi, FfiDirection}
use standardoc.Ir.Edge.{Site, RawEdge}
use standardoc.Ir.Bridge.{BridgeKind}
use standardoc.Ir.Lookup.{ModuleLookup}

pub record SymbolLocation : Type 0 where
  pub file : String
  pub start_line : ℕ
  pub end_line : ℕ
  pub start_col : ℕ
  pub end_col : ℕ

pub record TypeRef : Type 0 where
  pub display : String

pub record Param : Type 0 where
  pub name : String
  pub ty : TypeRef
  pub default : Option String

pub record Modifiers : Type 0 where
  pub is_async : Bool
  pub deprecated : Option String
  pub generic_params : List String
  pub where_clause : Option String

pub record SignatureMeta : Type 0 where
  pub exposed_via : List BridgeKind

pub record Signature : Type 0 where
  pub params : List Param
  pub returns : Option TypeRef
  pub modifiers : Modifiers
  pub meta : SignatureMeta

pub record RawAttributeArg : Type 0 where
  pub key : Option String
  pub value : String
  pub is_string_literal : Bool

pub record RawAttribute : Type 0 where
  pub name : String
  pub args : List RawAttributeArg
  pub site : Site

pub record RawSymbol : Type 0 where
  pub name : String
  pub fqdn : String
  pub kind : Kind
  pub language_kind : String
  pub decl_kind : Option DeclKind
  pub implements_trait : Option String
  pub receiver_type : Option TypeRef
  pub entry_point : Option EntryPointKind
  pub module_name : Option String
  pub visibility : Visibility
  pub location : SymbolLocation
  pub signature : Option Signature
  pub body_hash : Option Blake3Hash
  pub attributes : List RawAttribute
  pub flags : List String

pub record RawCallArg : Type 0 where
  pub value : String
  pub is_string_literal : Bool

pub record RawCallSite : Type 0 where
  pub from_fqdn : String
  pub callee_text : String
  pub args : List RawCallArg
  pub receiver_chain : List String
  pub site : Site

pub record RawDocument : Type 0 where
  pub symbol_fqdn : String
  pub description : String

pub record RawFfiBinding : Type 0 where
  pub symbol_fqdn : String
  pub abi : FfiAbi
  pub direction : FfiDirection
  pub abi_name : String
  pub convention : Option String

pub record ExtractedFile : Type 0 where
  pub file : String
  pub language : Language
  pub source_origin : SourceOrigin
  pub is_external : Bool
  pub content_hash : Blake3Hash
  pub byte_size : ℕ
  pub symbols : List RawSymbol
  pub edges : List RawEdge
  pub call_sites : List RawCallSite
  pub documents : List RawDocument
  pub ffi_bindings : List RawFfiBinding
  pub module_lookup : Option ModuleLookup
