-- ===== src/Pipeline/Batch.antt =====
-- crates/standardoc-core/src/pipeline/batch.rs: one file's extraction is written to the tables. The
-- clock of `current_unix_ms`, which may fail, is an argument.
pub mod Apply
pub mod Attach
pub mod Consistent
pub mod Frame
pub mod Files
pub mod ParseError
use standardoc.Base.{
  String, ℕ, Bool, true, false, ◌||◌, ◌&&◌, Option, none, some, List, [], ◌∷◌, ◌++◌, eqb, ◌==◌,
  if◌then◌else◌,
}
use mathlib.Core.Option
use standardoc.Ir.Kinds.{Language}
use standardoc.Ir.Edge.{RawEdge}
use standardoc.Ir.Lookup.{ModuleLookup}
use standardoc.Ir.Symbol.{RawSymbol, RawCallSite, RawDocument, RawFfiBinding, ExtractedFile}
use standardoc.Storage.Error.{Result, ok, err, StorageError, ◌>>=◌}
use standardoc.Storage.Serde.{Serde}
use standardoc.Storage.Database.{Database, SymbolRow, DocumentRow, symbol_by_key}
use standardoc.Storage.Symbols.{
  SymbolInsertContext, insert_symbol, update_symbol_positions, delete_symbol,
}
use standardoc.Storage.Edges.{insert_edge, promote_unresolved_batch, delete_edges_from}
use standardoc.Storage.Files.{FileInput, upsert_file, get_file, delete_file}
use standardoc.Storage.Satellites.{
  upsert_document, delete_document, insert_edge_sites, delete_edge_sites_by_file, insert_call_site,
  delete_call_sites_by_file, upsert_binding, delete_bindings_for_symbol, put_module_lookup,
}
use standardoc.Pipeline.Diff.{DiffPlan, fetch_existing_symbols, diff_symbols, is_extracted}
use standardoc.Pipeline.Batch.Apply.{apply_deletes, apply_symbols_and_edges}
use standardoc.Pipeline.Batch.Attach.{
  apply_documents, apply_call_sites, apply_ffi_bindings, apply_module_lookup,
}

unfoldable pub upsert_file_row : Result ℕ → Database → ExtractedFile → Result Database
unfolding upsert_file
upsert_file_row now db extracted = do
  last_scanned ← now
  upsert_file db (record {
    path = extracted.file;
    content_hash = extracted.content_hash;
    language = extracted.language;
    byte_size = extracted.byte_size;
    last_scanned = last_scanned;
    last_scan_error = none;
    is_external = extracted.is_external;
  })

-- The rest of it: documents, call sites, FFI bindings and the module lookup.
unfoldable pub apply_satellites :
    Serde → Result ℕ → Database → DiffPlan → List ℕ → ExtractedFile → String → Result Database
unfolding apply_documents apply_call_sites apply_ffi_bindings apply_module_lookup
apply_satellites serde clock db plan ids extracted workspace_id = do
  db₁ ← apply_documents clock db plan ids extracted.documents workspace_id
  let db₂ = apply_call_sites serde db₁ extracted.file extracted.call_sites
  db₃ ← apply_ffi_bindings db₂ extracted.ffi_bindings workspace_id
  apply_module_lookup serde db₃ workspace_id extracted.module_lookup

unfoldable pub apply_upsert_file :
    Serde → Result ℕ → Database → ExtractedFile → ℕ → String → Result Database
unfolding upsert_file_row fetch_existing_symbols diff_symbols apply_symbols_and_edges
    apply_satellites
apply_upsert_file serde clock db extracted revision workspace_id = do
  db₁ ← upsert_file_row clock db extracted
  let plan = diff_symbols (fetch_existing_symbols db₁ extracted.file) extracted.symbols
  (db₂, ids) ← apply_symbols_and_edges serde db₁ plan extracted revision workspace_id
  apply_satellites serde clock db₂ plan ids extracted workspace_id

unfoldable pub symbol_ids_of_file : List SymbolRow → String → List ℕ
symbol_ids_of_file [] path = []
symbol_ids_of_file (s ∷ symbols) path =
    let rest = symbol_ids_of_file symbols path in if s.file_path == path then s.id ∷ rest else rest

unfoldable pub fetch_symbol_ids_by_file : Database → String → List ℕ
unfolding symbol_ids_of_file
fetch_symbol_ids_by_file db path = symbol_ids_of_file db.symbols path

unfoldable pub apply_delete_file : Database → String → Database
unfolding fetch_symbol_ids_by_file apply_deletes delete_edge_sites_by_file delete_file
apply_delete_file db path =
    delete_file
      (delete_edge_sites_by_file (apply_deletes db (fetch_symbol_ids_by_file db path)) path) path

-- The default hash is 32 zero bytes.
abbrev pub default_hash : String
default_hash = "0000000000000000000000000000000000000000000000000000000000000000"

unfoldable pub parse_error_row : Option FileInput → ℕ → String → Language → String → FileInput
parse_error_row (some prev) now path language detail = record prev {
  last_scan_error = some detail;
  last_scanned = now;
}
parse_error_row none now path language detail = record {
  path = path;
  content_hash = default_hash;
  language = language;
  byte_size = 0;
  last_scanned = now;
  last_scan_error = some detail;
  is_external = false;
}

unfoldable pub record_parse_error :
    Result ℕ → Database → String → Language → String → Result Database
unfolding get_file parse_error_row upsert_file
record_parse_error clock db path language detail = do
  now ← clock
  existing ← get_file db path
  upsert_file db (parse_error_row existing now path language detail)
