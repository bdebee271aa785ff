-- ===== src/Storage/Satellites.antt =====
-- The tables beside symbols and edges: documents.rs, edge_sites.rs, call_sites.rs,
-- symbol_ffi_binding.rs and module_lookup.rs of crates/standardoc-core/src/storage.
pub mod Imports
use standardoc.Base.{
  String, ℕ, suc, Bool, true, false, ◌&&◌, not, none, some, List, [], ◌∷◌, ◌++◌, keep_if, eqb, ◌==◌,
  if◌then◌else◌,
}
use standardoc.Ir.Edge.{Site}
use standardoc.Ir.Symbol.{RawCallSite, RawFfiBinding}
use standardoc.Ir.Ffi.{abi_as_slug, direction_as_slug}
use standardoc.Ir.Lookup.{ModuleLookup, ImportRecord}
use standardoc.Storage.Error.{Result, ok, err, ◌>>=◌}
use standardoc.Storage.Serde.{Serde}
use standardoc.Storage.Conv.{language_to_sql_text}
use standardoc.Storage.Database.{
  Database, EdgeSiteRow, DocumentRow, CallSiteRow, FfiBindingRow, ModuleLookupRow, ImportRow,
  to_i64, foreign_key_failed, symbol_by_id,
}

abbrev pub is_document_of : ℕ → DocumentRow → Bool
is_document_of symbol_id d = eqb d.symbol_id symbol_id

-- `ON CONFLICT(symbol_id) DO UPDATE` overwrites every column.
unfoldable pub put_document : List DocumentRow → DocumentRow → List DocumentRow
put_document [] new = new ∷ []
put_document (d ∷ documents) new =
    let rest = put_document documents new in
    if is_document_of new.symbol_id d then new ∷ documents else d ∷ rest

unfoldable pub upsert_document : Database → DocumentRow → Result Database
unfolding put_document symbol_by_id
upsert_document db doc = elim (symbol_by_id db.symbols doc.symbol_id) [
  | none ↦ err foreign_key_failed
  | some _ ↦ ok (record db { documents = put_document db.documents doc })
]

unfoldable pub delete_document : Database → ℕ → Database
delete_document db symbol_id = record db {
  documents = keep_if (λ d. not (is_document_of symbol_id d)) db.documents;
}

abbrev pub same_site : EdgeSiteRow → EdgeSiteRow → Bool
same_site a b =
    eqb a.edge_id b.edge_id
    && (a.file_path == b.file_path && (eqb a.line b.line && eqb a.col b.col))

-- `INSERT OR IGNORE`
unfoldable pub put_site : List EdgeSiteRow → EdgeSiteRow → List EdgeSiteRow
put_site [] new = new ∷ []
put_site (s ∷ sites) new =
    let rest = put_site sites new in if same_site s new then s ∷ sites else s ∷ rest

abbrev pub site_row : ℕ → Site → EdgeSiteRow
site_row edge_id site = record {
  edge_id = edge_id;
  file_path = site.file;
  line = site.line;
  col = site.col;
}

unfoldable pub insert_edge_sites : Database → ℕ → List Site → Database
unfolding put_site
insert_edge_sites db edge_id [] = db
insert_edge_sites db edge_id (site ∷ sites) =
    insert_edge_sites (record db { edge_sites = put_site db.edge_sites (site_row edge_id site) })
      edge_id sites

unfoldable pub delete_edge_sites_by_file : Database → String → Database
delete_edge_sites_by_file db file_path = record db {
  edge_sites = keep_if (λ (s : EdgeSiteRow). not (s.file_path == file_path)) db.edge_sites;
}

unfoldable pub insert_call_site : Serde → Database → String → RawCallSite → Database
insert_call_site serde db file_path cs = record db {
  call_sites =
      db.call_sites
      ++ record {
        id = db.next_call_site_id;
        from_fqdn = cs.from_fqdn;
        callee_text = cs.callee_text;
        args_json = serde.call_args_to_string cs.args;
        receiver_chain_json = serde.strings_to_string cs.receiver_chain;
        file_path = file_path;
        line = cs.site.line;
        col = cs.site.col;
      }
        ∷ [];
  next_call_site_id = suc db.next_call_site_id;
}

unfoldable pub delete_call_sites_by_file : Database → String → Database
delete_call_sites_by_file db file_path = record db {
  call_sites = keep_if (λ (c : CallSiteRow). not (c.file_path == file_path)) db.call_sites;
}

abbrev pub same_binding : FfiBindingRow → FfiBindingRow → Bool
same_binding a b =
    eqb a.symbol_id b.symbol_id
    && (a.abi == b.abi && (a.direction == b.direction && a.abi_name == b.abi_name))

-- `ON CONFLICT(symbol_id, abi, direction, abi_name) DO UPDATE SET convention`
unfoldable pub put_binding : List FfiBindingRow → FfiBindingRow → List FfiBindingRow
put_binding [] new = new ∷ []
put_binding (b ∷ bindings) new =
    let rest = put_binding bindings new in if same_binding b new then new ∷ bindings else b ∷ rest

unfoldable pub upsert_binding : Database → ℕ → RawFfiBinding → Result Database
unfolding put_binding symbol_by_id abi_as_slug direction_as_slug
upsert_binding db symbol_id binding = elim (symbol_by_id db.symbols symbol_id) [
  | none ↦ err foreign_key_failed
  | some _ ↦ ok (record db {
    ffi_bindings = put_binding db.ffi_bindings (record {
      symbol_id = symbol_id;
      abi = abi_as_slug binding.abi;
      direction = direction_as_slug binding.direction;
      abi_name = binding.abi_name;
      convention = binding.convention;
    });
  })
]

unfoldable pub delete_bindings_for_symbol : Database → ℕ → Database
delete_bindings_for_symbol db symbol_id = record db {
  ffi_bindings = keep_if (λ (b : FfiBindingRow). not (eqb b.symbol_id symbol_id)) db.ffi_bindings;
}

-- `INSERT OR REPLACE`
unfoldable pub put_lookup_row : List ModuleLookupRow → ModuleLookupRow → List ModuleLookupRow
put_lookup_row rows new =
    keep_if
      (λ (r : ModuleLookupRow).
        not (r.workspace_id == new.workspace_id && r.module_fqdn == new.module_fqdn))
      rows
    ++ new ∷ []

abbrev pub is_import_of : String → String → ImportRow → Bool
is_import_of workspace_id module_fqdn r =
    r.workspace_id == workspace_id && r.module_fqdn == module_fqdn

unfoldable pub import_row : String → String → ImportRecord → ImportRow
import_row workspace_id module_fqdn i = record {
  workspace_id = workspace_id;
  module_fqdn = module_fqdn;
  local_name = i.local_name;
  origin_module = i.origin_module;
  origin_symbol = i.origin_symbol;
  is_type_only = i.is_type_only;
  is_re_export = i.is_re_export;
}

unfoldable pub was_seen : List (String × String) → String → String → Bool
was_seen [] local_name origin_module = false
was_seen ((l, o) ∷ seen) local_name origin_module =
    let rest = was_seen seen local_name origin_module in
    if l == local_name && o == origin_module then true else rest

-- The loop over the imports, which writes each `(local_name, origin_module)` once.
unfoldable pub insert_imports :
    String → String → List (String × String) → List ImportRecord → List ImportRow → List ImportRow
unfolding was_seen import_row
insert_imports workspace_id module_fqdn seen [] rows = rows
insert_imports workspace_id module_fqdn seen (i ∷ imports) rows =
    let skipped = insert_imports workspace_id module_fqdn seen imports rows in
    let written =
      insert_imports workspace_id module_fqdn ((i.local_name, i.origin_module) ∷ seen) imports
        (rows ++ import_row workspace_id module_fqdn i ∷ []) in
    if was_seen seen i.local_name i.origin_module then skipped else written

unfoldable pub put_module_lookup : Serde → Database → String → ModuleLookup → Result Database
unfolding put_lookup_row insert_imports language_to_sql_text
put_module_lookup serde db workspace_id lookup = do
  payload ← serde.encode_to_vec lookup
  ok (record db {
    module_lookups = put_lookup_row db.module_lookups (record {
      module_fqdn = lookup.module_fqdn;
      workspace_id = workspace_id;
      language = language_to_sql_text lookup.language;
      built_at = to_i64 lookup.built_at_epoch_ms;
      payload = payload;
    });
    workspace_imports =
        insert_imports workspace_id lookup.module_fqdn [] lookup.imports (
          keep_if (λ r. not (is_import_of workspace_id lookup.module_fqdn r)) db.workspace_imports);
  })
