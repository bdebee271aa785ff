-- ===== src/Pipeline/Batch/Attach.antt =====
-- crates/standardoc-core/src/pipeline/batch.rs: documents, call sites, FFI bindings and the module
-- lookup of a file.
use standardoc.Base.{
  String, ℕ, true, false, Option, none, some, List, [], ◌∷◌, ◌++◌, eqb, if◌then◌else◌,
}
use standardoc.Ir.Lookup.{ModuleLookup}
use standardoc.Ir.Symbol.{RawCallSite, RawDocument, RawFfiBinding}
use standardoc.Storage.Error.{Result, ok, ◌>>=◌}
use standardoc.Storage.Serde.{Serde}
use standardoc.Storage.Database.{Database, DocumentRow}
use standardoc.Storage.Satellites.{
  upsert_document, delete_document, insert_call_site, delete_call_sites_by_file, upsert_binding,
  delete_bindings_for_symbol, put_module_lookup,
}
use standardoc.Pipeline.Diff.{DiffPlan}
use standardoc.Pipeline.Batch.Apply.{lookup_symbol_id_by_fqdn, is_touched}

unfoldable pub delete_documents : Database → List ℕ → Database
unfolding delete_document
delete_documents db [] = db
delete_documents db (id ∷ ids) = delete_documents (delete_document db id) ids

abbrev pub document_row : ℕ → ℕ → RawDocument → DocumentRow
document_row now id doc = record {
  symbol_id = id;
  description = some doc.description;
  examples_json = none;
  tags_json = none;
  params_json = none;
  returns_json = none;
  ai_summary = none;
  last_updated = now;
}

unfoldable pub put_documents : ℕ → Database → DiffPlan → List RawDocument → String → Result Database
unfolding is_touched lookup_symbol_id_by_fqdn upsert_document
put_documents now db plan [] workspace_id = ok db
put_documents now db plan (doc ∷ documents) workspace_id =
    let rest = put_documents now db plan documents workspace_id in
    elim (is_touched plan doc.symbol_fqdn) [
      | false ↦ rest
      | true ↦ elim (lookup_symbol_id_by_fqdn db doc.symbol_fqdn workspace_id) [
        | none ↦ rest
        | some id ↦ (do
          db' ← upsert_document db (document_row now id doc)
          put_documents now db' plan documents workspace_id)
      ]
    ]

unfoldable pub apply_documents :
    Result ℕ → Database → DiffPlan → List ℕ → List RawDocument → String → Result Database
unfolding delete_documents put_documents
apply_documents clock db plan ids [] workspace_id = ok (delete_documents db ids)
apply_documents clock db plan ids (doc ∷ documents) workspace_id = do
  now ← clock
  put_documents now (delete_documents db ids) plan (doc ∷ documents) workspace_id

unfoldable pub insert_call_sites : Serde → Database → String → List RawCallSite → Database
unfolding insert_call_site
insert_call_sites serde db file_path [] = db
insert_call_sites serde db file_path (cs ∷ call_sites) =
    insert_call_sites serde (insert_call_site serde db file_path cs) file_path call_sites

unfoldable pub apply_call_sites : Serde → Database → String → List RawCallSite → Database
unfolding delete_call_sites_by_file insert_call_sites
apply_call_sites serde db file_path call_sites =
    insert_call_sites serde (delete_call_sites_by_file db file_path) file_path call_sites

-- `by_symbol.entry(id).or_default().push(b)`
unfoldable pub push_group :
    List (ℕ × List RawFfiBinding) → ℕ → RawFfiBinding → List (ℕ × List RawFfiBinding)
push_group [] id b = (id, b ∷ []) ∷ []
push_group ((i, group) ∷ groups) id b =
    let rest = push_group groups id b in
    if eqb i id then (i, group ++ b ∷ []) ∷ groups else (i, group) ∷ rest

unfoldable pub group_bindings :
    Database
    → List RawFfiBinding
    → String
    → List (ℕ × List RawFfiBinding)
    → List (ℕ × List RawFfiBinding)
unfolding lookup_symbol_id_by_fqdn push_group
group_bindings db [] workspace_id groups = groups
group_bindings db (b ∷ bindings) workspace_id groups =
    group_bindings db bindings workspace_id
      (elim (lookup_symbol_id_by_fqdn db b.symbol_fqdn workspace_id) [
        | none ↦ groups
        | some id ↦ push_group groups id b
      ])

unfoldable pub upsert_bindings : Database → ℕ → List RawFfiBinding → Result Database
unfolding upsert_binding
upsert_bindings db id [] = ok db
upsert_bindings db id (b ∷ bindings) = do
  db' ← upsert_binding db id b
  upsert_bindings db' id bindings

unfoldable pub put_groups : Database → List (ℕ × List RawFfiBinding) → Result Database
unfolding delete_bindings_for_symbol upsert_bindings
put_groups db [] = ok db
put_groups db ((id, group) ∷ groups) = do
  db' ← upsert_bindings (delete_bindings_for_symbol db id) id group
  put_groups db' groups

unfoldable pub apply_ffi_bindings : Database → List RawFfiBinding → String → Result Database
unfolding group_bindings put_groups
apply_ffi_bindings db bindings workspace_id =
    put_groups db (group_bindings db bindings workspace_id [])

unfoldable pub apply_module_lookup :
    Serde → Database → String → Option ModuleLookup → Result Database
unfolding put_module_lookup
apply_module_lookup serde db workspace_id none = ok db
apply_module_lookup serde db workspace_id (some lookup) =
    put_module_lookup serde db workspace_id lookup
