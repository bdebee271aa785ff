-- ===== src/Pipeline/Examples.antt =====
-- A workspace of two files, `a.rs` with a call of `b::g`, and `b.rs` that defines it.
pub mod Diffs
mod Peers
pub mod Runs
pub mod Imports
pub mod Joins
pub mod Links
pub mod Crossings
use standardoc.Base.{
  String, ℕ, ◌≡◌, refl, Bool, true, false, Option, none, some, List, [], ◌∷◌, ◌+◌,
}
use standardoc.Ir.Kinds.{
  Kind, EdgeKind, EdgeConfidence, Visibility, SourceOrigin, Language, DeclKind,
}
use standardoc.Ir.Edge.{Site, RawEdge, ResolvedOrUnresolved}
use standardoc.Ir.Symbol.{RawSymbol, SymbolLocation, ExtractedFile}
use standardoc.Pipeline.Writer.{IngestCommand}
use standardoc.Storage.Error.{Result, ok, err, StorageError}
use standardoc.Storage.Serde.{Serde}
use standardoc.Storage.Database.{Database, FileRow, SymbolRow, EdgeRow, EdgeSiteRow}

abbrev pub sample_hash : String
sample_hash = "aaaaaaaaaaaaaaaaaaaaaaaaaaaaaaaaaaaaaaaaaaaaaaaaaaaaaaaaaaaaaaaa"

-- Encoders that write a constant for each value.
abbrev pub plain : Serde
plain = record {
  signature_to_string = λ _. ok "{}";
  strings_to_string = λ _. "[]";
  call_args_to_string = λ _. "[]";
  encode_to_vec = λ _. ok [];
}

abbrev pub callable : String → String → String → ℕ → String → RawSymbol
callable name fqdn file line hash = record {
  name = name;
  fqdn = fqdn;
  kind = Kind.callable;
  language_kind = "rust:fn";
  decl_kind = some DeclKind.function;
  implements_trait = none;
  receiver_type = none;
  entry_point = none;
  module_name = none;
  visibility = Visibility.public;
  location = record {
    file = file;
    start_line = line;
    end_line = line + 2;
    start_col = 0;
    end_col = 1;
  };
  signature = none;
  body_hash = some hash;
  attributes = [];
  flags = [];
}

abbrev pub extraction : String → List RawSymbol → List RawEdge → ExtractedFile
extraction file symbols edges = record {
  file = file;
  language = Language.rust;
  source_origin = SourceOrigin.workspace;
  is_external = false;
  content_hash = sample_hash;
  byte_size = 120;
  symbols = symbols;
  edges = edges;
  call_sites = [];
  documents = [];
  ffi_bindings = [];
  module_lookup = none;
}

abbrev pub call_of_g : RawEdge
call_of_g = record {
  from_fqdn = "a::f";
  kind = EdgeKind.calls;
  to = ResolvedOrUnresolved.unresolved "b::g";
  sites = record { file = "a.rs"; line = 2; col = 4 } ∷ [];
  attributes = [];
  confidence = EdgeConfidence.ambiguous;
  receiver_type = none;
}

abbrev pub first_file : ExtractedFile
first_file = extraction "a.rs" (callable "f" "a::f" "a.rs" 1 "h1" ∷ []) (call_of_g ∷ [])

abbrev pub second_file : ExtractedFile
second_file = extraction "b.rs" (callable "g" "b::g" "b.rs" 5 "h2" ∷ []) []

abbrev pub empty_database : Database
empty_database = record {
  files = [];
  symbols = [];
  next_symbol_id = 1;
  edges = [];
  next_edge_id = 1;
  edge_sites = [];
  documents = [];
  call_sites = [];
  next_call_site_id = 1;
  ffi_bindings = [];
  decl_locations = [];
  module_lookups = [];
  workspace_imports = [];
  revision = 0;
}

abbrev pub file_row : String → FileRow
file_row path = record {
  path = path;
  content_hash = sample_hash;
  language = "rust";
  last_scanned = 7;
  byte_size = 120;
  last_scan_error = none;
  is_external = false;
  project_id = none;
}

abbrev pub symbol_row : ℕ → String → String → String → ℕ → String → ℕ → SymbolRow
symbol_row id name fqdn file line hash revision = record {
  id = id;
  fqdn = fqdn;
  name = name;
  kind = "callable";
  language_kind = "rust:fn";
  language = "rust";
  module_name = none;
  visibility = "public";
  file_path = file;
  start_line = line;
  end_line = line + 2;
  start_col = 0;
  end_col = 1;
  signature_json = none;
  body_hash = some hash;
  decl_kind = some "function";
  implements_trait = none;
  receiver_type = none;
  entry_point = none;
  is_external = false;
  source_origin = "workspace";
  last_modified_revision = revision;
  flags = "[]";
  workspace_id = "primary";
}

abbrev pub edge_row : Option ℕ → Option String → EdgeRow
edge_row to name = record {
  id = 1;
  from_symbol_id = 1;
  kind = "CALLS";
  to_symbol_id = to;
  to_unresolved = name;
  attributes = "[]";
  confidence = "ambiguous";
  receiver_type = none;
}

-- After the first file: the call names a symbol that is not known.
abbrev pub with_first : Database
with_first = record empty_database {
  files = file_row "a.rs" ∷ [];
  symbols = symbol_row 1 "f" "a::f" "a.rs" 1 "h1" 1 ∷ [];
  next_symbol_id = 2;
  edges = edge_row none (some "b::g") ∷ [];
  next_edge_id = 2;
  edge_sites = record { edge_id = 1; file_path = "a.rs"; line = 2; col = 4 } ∷ [];
}

-- After the second file the call is resolved.
abbrev pub with_both : Database
with_both = record with_first {
  files = file_row "a.rs" ∷ file_row "b.rs" ∷ [];
  symbols = symbol_row 1 "f" "a::f" "a.rs" 1 "h1" 1 ∷ symbol_row 2 "g" "b::g" "b.rs" 5 "h2" 2 ∷ [];
  next_symbol_id = 3;
  edges = edge_row (some 2) none ∷ [];
}

-- Between the two: the symbol of the second file is there, and the call still names it.
abbrev pub with_g : Database
with_g = record with_both { edges = edge_row none (some "b::g") ∷ [] }

abbrev pub commands : List IngestCommand
commands =
    IngestCommand.upsert_file "a.rs" first_file
    ∷ IngestCommand.rescan_from_scratch
    ∷ IngestCommand.upsert_file "b.rs" second_file
    ∷ IngestCommand.delete_file "b.rs"
    ∷ []
