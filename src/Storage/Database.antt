-- ===== src/Storage/Database.antt =====
-- The tables of crates/standardoc-core/migrations/init_v0.sql that the pipeline writes, as lists of
-- rows in insertion order. An `INTEGER PRIMARY KEY AUTOINCREMENT` has its next value beside the
-- table. The writes of SQL statements are functions on these lists, in the modules of the source
-- files that issue them.
use standardoc.Base.{
  String, ℕ, Bool, Option, List, ◌^◌, ◌-◌, eqb, ◌==◌, if◌then◌else◌, leb, find, ◌&&◌,
}
use standardoc.Storage.Error.{StorageError, RusqliteError, ErrorCode}

pub record FileRow : Type 0 where
  pub path : String
  pub content_hash : String
  pub language : String
  pub last_scanned : ℕ
  pub byte_size : ℕ
  pub last_scan_error : Option String
  pub is_external : Bool
  pub project_id : Option ℕ

pub record SymbolRow : Type 0 where
  pub id : ℕ
  pub fqdn : String
  pub name : String
  pub kind : String
  pub language_kind : String
  pub language : String
  pub module_name : Option String
  pub visibility : String
  pub file_path : String
  pub start_line : ℕ
  pub end_line : ℕ
  pub start_col : ℕ
  pub end_col : ℕ
  pub signature_json : Option String
  pub body_hash : Option String
  pub decl_kind : Option String
  pub implements_trait : Option String
  pub receiver_type : Option String
  pub entry_point : Option String
  pub is_external : Bool
  pub source_origin : String
  pub last_modified_revision : ℕ
  pub flags : String
  pub workspace_id : String

pub record EdgeRow : Type 0 where
  pub id : ℕ
  pub from_symbol_id : ℕ
  pub kind : String
  pub to_symbol_id : Option ℕ
  pub to_unresolved : Option String
  pub attributes : String
  pub confidence : String
  pub receiver_type : Option String

pub record EdgeSiteRow : Type 0 where
  pub edge_id : ℕ
  pub file_path : String
  pub line : ℕ
  pub col : ℕ

-- The columns that only other writers fill are null here.
pub record DocumentRow : Type 0 where
  pub symbol_id : ℕ
  pub description : Option String
  pub examples_json : Option String
  pub tags_json : Option String
  pub params_json : Option String
  pub returns_json : Option String
  pub ai_summary : Option String
  pub last_updated : ℕ

pub record CallSiteRow : Type 0 where
  pub id : ℕ
  pub from_fqdn : String
  pub callee_text : String
  pub args_json : String
  pub receiver_chain_json : String
  pub file_path : String
  pub line : ℕ
  pub col : ℕ

-- The declaration of a symbol that is defined elsewhere.
pub record DeclLocationRow : Type 0 where
  pub symbol_id : ℕ
  pub file : String
  pub start_line : ℕ
  pub end_line : ℕ
  pub start_col : ℕ
  pub end_col : ℕ

pub record FfiBindingRow : Type 0 where
  pub symbol_id : ℕ
  pub abi : String
  pub direction : String
  pub abi_name : String
  pub convention : Option String

pub record ModuleLookupRow : Type 0 where
  pub module_fqdn : String
  pub workspace_id : String
  pub language : String
  pub built_at : ℕ
  pub payload : List ℕ

pub record ImportRow : Type 0 where
  pub workspace_id : String
  pub module_fqdn : String
  pub local_name : String
  pub origin_module : String
  pub origin_symbol : Option String
  pub is_type_only : Bool
  pub is_re_export : Bool

pub record Database : Type 0 where
  pub files : List FileRow
  pub symbols : List SymbolRow
  pub next_symbol_id : ℕ
  pub edges : List EdgeRow
  pub next_edge_id : ℕ
  pub edge_sites : List EdgeSiteRow
  pub documents : List DocumentRow
  pub call_sites : List CallSiteRow
  pub next_call_site_id : ℕ
  pub ffi_bindings : List FfiBindingRow
  pub decl_locations : List DeclLocationRow
  pub module_lookups : List ModuleLookupRow
  pub workspace_imports : List ImportRow
  pub revision : ℕ

abbrev pub i64_max : ℕ
i64_max = 2 ^ 63 - 1

-- `i64::try_from(n).unwrap_or(i64::MAX)`
abbrev pub to_i64 : ℕ → ℕ
to_i64 n = if leb n i64_max then n else i64_max

-- SQLITE_CONSTRAINT_FOREIGNKEY
abbrev pub foreign_key_failed : StorageError
foreign_key_failed =
    StorageError.sqlite
      (RusqliteError.sqlite_failure ErrorCode.other_code 787 "FOREIGN KEY constraint failed")

-- SQLITE_CONSTRAINT_CHECK
abbrev pub check_failed : StorageError
check_failed =
    StorageError.sqlite
      (RusqliteError.sqlite_failure ErrorCode.other_code 275 "CHECK constraint failed")

-- `WHERE workspace_id = ?1 AND fqdn = ?2`
abbrev pub has_key : String → String → SymbolRow → Bool
has_key workspace_id fqdn s = s.workspace_id == workspace_id && s.fqdn == fqdn

-- `WHERE id = ?1`
abbrev pub has_id : ℕ → SymbolRow → Bool
has_id id s = eqb s.id id

unfoldable pub symbol_by_key : List SymbolRow → String → String → Option SymbolRow
symbol_by_key symbols workspace_id fqdn = find (has_key workspace_id fqdn) symbols

unfoldable pub symbol_by_id : List SymbolRow → ℕ → Option SymbolRow
symbol_by_id symbols id = find (has_id id) symbols

unfoldable pub file_by_path : List FileRow → String → Option FileRow
file_by_path files path = find (λ (f : FileRow). f.path == path) files
