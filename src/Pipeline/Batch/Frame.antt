-- ===== src/Pipeline/Batch/Frame.antt =====
-- Documents, call sites, FFI bindings and the module lookup leave symbols and edges alone.
use standardoc.Base.{
  String, ℕ, ◌≡◌, subst, Option, none, some, List, [], ◌∷◌, inl, inr, Option-cases, Bool-cases,
}
use standardoc.Ir.Lookup.{ModuleLookup}
use standardoc.Ir.Symbol.{RawCallSite, RawDocument, RawFfiBinding, ExtractedFile}
use standardoc.Storage.Error.{Result, ok, ok_of_bind, ok-injective}
use standardoc.Storage.Serde.{Serde}
use standardoc.Storage.Database.{Database}
use standardoc.Storage.Satellites.{
  upsert_document, delete_document, insert_call_site, delete_call_sites_by_file, upsert_binding,
  delete_bindings_for_symbol,
}
use standardoc.Storage.Index.Frame.{
  SameIndex, SameIndex-refl, SameIndex-trans, upsert_document-SameIndex, delete_document-SameIndex,
  insert_call_site-SameIndex, delete_call_sites_by_file-SameIndex, upsert_binding-SameIndex,
  delete_bindings_for_symbol-SameIndex, put_module_lookup-SameIndex,
}
use standardoc.Pipeline.Diff.{DiffPlan}
use standardoc.Pipeline.Batch.Apply.{is_touched, lookup_symbol_id_by_fqdn}
use standardoc.Pipeline.Batch.Attach.{
  delete_documents, document_row, put_documents, apply_documents, insert_call_sites,
  apply_call_sites, group_bindings, upsert_bindings, put_groups, apply_ffi_bindings,
  apply_module_lookup,
}
use standardoc.Pipeline.Batch.{apply_satellites}

delete_documents-SameIndex : (ids : List ℕ) (db : Database) → SameIndex db (delete_documents db ids)
unfolding delete_documents
delete_documents-SameIndex [] db = SameIndex-refl db
delete_documents-SameIndex (id ∷ ids) db =
    SameIndex-trans db (delete_document db id) _ (delete_document-SameIndex db id)
      (delete_documents-SameIndex ids (delete_document db id))

module _ (now : ℕ) (plan : DiffPlan) (workspace_id : String) where
  put_documents-SameIndex :
      (documents : List RawDocument) (db db' : Database)
      → put_documents now db plan documents workspace_id ≡ ok db'
      → SameIndex db db'
  unfolding put_documents
  put_documents-SameIndex [] db db' e =
      subst (SameIndex db) (ok-injective _ _ e) (SameIndex-refl db)
  put_documents-SameIndex (doc ∷ documents) db db' e =
      elim (Bool-cases (is_touched plan doc.symbol_fqdn)) [
        | inr untouched ↦
            put_documents-SameIndex documents db db' (rw (put_documents, untouched) at e)
        | inl touched ↦
            elim (Option-cases (lookup_symbol_id_by_fqdn db doc.symbol_fqdn workspace_id)) [
              | inl missing ↦
                  put_documents-SameIndex documents db db'
                    (rw (put_documents, touched, missing) at e)
              | inr (id, found) ↦
                  let (db₁, written, e₁) =
                    ok_of_bind (upsert_document db (document_row now id doc)) _
                      (rw (put_documents, touched, found) at e) in
                  SameIndex-trans db db₁ db'
                    (upsert_document-SameIndex db (document_row now id doc) db₁ written)
                    (put_documents-SameIndex documents db₁ db' e₁)
            ]
      ]

apply_documents-SameIndex :
    (clock : Result ℕ) (plan : DiffPlan) (ids : List ℕ) (documents : List RawDocument)
    → (workspace_id : String) (db db' : Database)
    → apply_documents clock db plan ids documents workspace_id ≡ ok db'
    → SameIndex db db'
unfolding apply_documents
apply_documents-SameIndex clock plan ids [] workspace_id db db' e =
    subst (SameIndex db) (ok-injective _ _ e) (delete_documents-SameIndex ids db)
apply_documents-SameIndex clock plan ids (doc ∷ documents) workspace_id db db' e =
    let (now, _, e₁) = ok_of_bind clock _ e in
    SameIndex-trans db (delete_documents db ids) db' (delete_documents-SameIndex ids db) (
      put_documents-SameIndex now plan workspace_id (doc ∷ documents) (delete_documents db ids) db'
        e₁)

module _ (serde : Serde) (path : String) where
  insert_call_sites-SameIndex :
      (call_sites : List RawCallSite) (db : Database)
      → SameIndex db (insert_call_sites serde db path call_sites)
  unfolding insert_call_sites
  insert_call_sites-SameIndex [] db = SameIndex-refl db
  insert_call_sites-SameIndex (cs ∷ call_sites) db =
      SameIndex-trans db (insert_call_site serde db path cs) _
        (insert_call_site-SameIndex serde db path cs)
        (insert_call_sites-SameIndex call_sites (insert_call_site serde db path cs))

  apply_call_sites-SameIndex :
      (call_sites : List RawCallSite) (db : Database)
      → SameIndex db (apply_call_sites serde db path call_sites)
  unfolding apply_call_sites
  apply_call_sites-SameIndex call_sites db =
      SameIndex-trans db (delete_call_sites_by_file db path) _
        (delete_call_sites_by_file-SameIndex db path)
        (insert_call_sites-SameIndex call_sites (delete_call_sites_by_file db path))

upsert_bindings-SameIndex :
    (id : ℕ) (bindings : List RawFfiBinding) (db db' : Database)
    → upsert_bindings db id bindings ≡ ok db'
    → SameIndex db db'
unfolding upsert_bindings
upsert_bindings-SameIndex id [] db db' e =
    subst (SameIndex db) (ok-injective _ _ e) (SameIndex-refl db)
upsert_bindings-SameIndex id (b ∷ bindings) db db' e =
    let (db₁, written, e₁) = ok_of_bind (upsert_binding db id b) _ e in
    SameIndex-trans db db₁ db' (upsert_binding-SameIndex db id b db₁ written)
      (upsert_bindings-SameIndex id bindings db₁ db' e₁)

put_groups-SameIndex :
    (groups : List (ℕ × List RawFfiBinding)) (db db' : Database)
    → put_groups db groups ≡ ok db'
    → SameIndex db db'
unfolding put_groups
put_groups-SameIndex [] db db' e = subst (SameIndex db) (ok-injective _ _ e) (SameIndex-refl db)
put_groups-SameIndex ((id, group) ∷ groups) db db' e =
    let cleared = delete_bindings_for_symbol db id in
    let (db₁, written, e₁) = ok_of_bind (upsert_bindings cleared id group) _ e in
    SameIndex-trans db cleared db' (delete_bindings_for_symbol-SameIndex db id) (
      SameIndex-trans cleared db₁ db' (upsert_bindings-SameIndex id group cleared db₁ written)
        (put_groups-SameIndex groups db₁ db' e₁))

apply_module_lookup-SameIndex :
    (serde : Serde) (workspace_id : String) (lookup : Option ModuleLookup) (db db' : Database)
    → apply_module_lookup serde db workspace_id lookup ≡ ok db'
    → SameIndex db db'
unfolding apply_module_lookup
apply_module_lookup-SameIndex serde workspace_id none db db' e =
    subst (SameIndex db) (ok-injective _ _ e) (SameIndex-refl db)
apply_module_lookup-SameIndex serde workspace_id (some lookup) db db' e =
    put_module_lookup-SameIndex serde db workspace_id lookup db' e

pub apply_satellites-SameIndex :
    (serde : Serde) (clock : Result ℕ) (plan : DiffPlan) (ids : List ℕ) (extracted : ExtractedFile)
    → (workspace_id : String) (db db' : Database)
    → apply_satellites serde clock db plan ids extracted workspace_id ≡ ok db'
    → SameIndex db db'
unfolding apply_satellites apply_ffi_bindings
apply_satellites-SameIndex serde clock plan ids extracted workspace_id db db' e =
    let (db₁, written, e₁) =
      ok_of_bind (apply_documents clock db plan ids extracted.documents workspace_id) _ e in
    let db₂ = apply_call_sites serde db₁ extracted.file extracted.call_sites in
    let (db₃, bound, e₃) =
      ok_of_bind (apply_ffi_bindings db₂ extracted.ffi_bindings workspace_id) _ e₁ in
    SameIndex-trans db db₁ db'
      (apply_documents-SameIndex clock plan ids extracted.documents workspace_id db db₁ written)
      (SameIndex-trans db₁ db₂ db'
        (apply_call_sites-SameIndex serde extracted.file extracted.call_sites db₁)
        (SameIndex-trans db₂ db₃ db'
          (put_groups-SameIndex (group_bindings db₂ extracted.ffi_bindings workspace_id []) db₂ db₃
            bound)
          (apply_module_lookup-SameIndex serde workspace_id extracted.module_lookup db₃ db' e₃)))
