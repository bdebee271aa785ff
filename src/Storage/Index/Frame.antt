-- ===== src/Storage/Index/Frame.antt =====
-- The writes that leave the tables `symbols` and `edges` alone.
use standardoc.Base.{
  String, ℕ, ◌≡◌, refl, sym as inverse, subst, ◌∙◌, List, [], ◌∷◌, In, leb, inl, inr, Option-cases,
  Bool-cases,
}
use standardoc.Ir.Edge.{Site}
use standardoc.Ir.Lookup.{ModuleLookup}
use standardoc.Ir.Symbol.{RawCallSite, RawFfiBinding}
use standardoc.Storage.Error.{ok, ok_of_bind, ok-injective}
use standardoc.Storage.Serde.{Serde}
use standardoc.Storage.Database.{Database, DocumentRow, symbol_by_id, i64_max}
use standardoc.Storage.Files.{FileInput, upsert_file, delete_file}
use standardoc.Storage.Satellites.{
  put_site, site_row, upsert_document, delete_document, insert_edge_sites,
  delete_edge_sites_by_file, insert_call_site, delete_call_sites_by_file, upsert_binding,
  delete_bindings_for_symbol, put_module_lookup,
}
use standardoc.Storage.Index.{IsIndexed, IsTable, IsEdge}

pub record SameIndex (db db' : Database) : Type 0 where
  pub symbols : db'.symbols ≡ db.symbols
  pub next_symbol_id : db'.next_symbol_id ≡ db.next_symbol_id
  pub edges : db'.edges ≡ db.edges

pub SameIndex-refl : (db : Database) → SameIndex db db
SameIndex-refl db = record { symbols = refl; next_symbol_id = refl; edges = refl }

pub SameIndex-trans : (a b c : Database) → SameIndex a b → SameIndex b c → SameIndex a c
SameIndex-trans a b c h k = record {
  symbols = k.symbols ∙ h.symbols;
  next_symbol_id = k.next_symbol_id ∙ h.next_symbol_id;
  edges = k.edges ∙ h.edges;
}

pub IsIndexed-same :
    (pending : List ℕ) (db db' : Database)
    → SameIndex db db'
    → IsIndexed pending db
    → IsIndexed pending db'
IsIndexed-same pending db db' same h = record {
  table =
      subst (IsTable db'.symbols) (inverse same.next_symbol_id)
        (subst (λ symbols. IsTable symbols db.next_symbol_id) (inverse same.symbols) h.table);
  edges = λ e held.
      subst (λ symbols. IsEdge pending symbols e) (inverse same.symbols)
        (h.edges e (subst (In e) same.edges held));
}

pub upsert_file-SameIndex :
    (db : Database) (file : FileInput) (db' : Database)
    → upsert_file db file ≡ ok db'
    → SameIndex db db'
unfolding upsert_file
upsert_file-SameIndex db file db' e = elim (Bool-cases (leb file.byte_size i64_max)) [
  | inl fits ↦
      subst (SameIndex db) (ok-injective _ _ (rw (upsert_file, fits) at e))
        (record { symbols = refl; next_symbol_id = refl; edges = refl })
  | inr too_large ↦ absurd (cc (rw (upsert_file, too_large) at e))
]

pub delete_file-SameIndex : (db : Database) (path : String) → SameIndex db (delete_file db path)
unfolding delete_file
delete_file-SameIndex db path = (record { symbols = refl; next_symbol_id = refl; edges = refl })

pub upsert_document-SameIndex :
    (db : Database) (doc : DocumentRow) (db' : Database)
    → upsert_document db doc ≡ ok db'
    → SameIndex db db'
unfolding upsert_document
upsert_document-SameIndex db doc db' e =
    elim (Option-cases (symbol_by_id db.symbols doc.symbol_id)) [
      | inl missing ↦ absurd (cc (rw (upsert_document, missing) at e))
      | inr (s, found) ↦
          subst (SameIndex db) (ok-injective _ _ (rw (upsert_document, found) at e))
            (record { symbols = refl; next_symbol_id = refl; edges = refl })
    ]

pub delete_document-SameIndex : (db : Database) (id : ℕ) → SameIndex db (delete_document db id)
unfolding delete_document
delete_document-SameIndex db id = (record { symbols = refl; next_symbol_id = refl; edges = refl })

pub insert_edge_sites-SameIndex :
    (edge_id : ℕ) (sites : List Site) (db : Database)
    → SameIndex db (insert_edge_sites db edge_id sites)
unfolding insert_edge_sites
insert_edge_sites-SameIndex edge_id [] db = SameIndex-refl db
insert_edge_sites-SameIndex edge_id (site ∷ sites) db =
    let db₁ : Database = record db {
      edge_sites = put_site db.edge_sites (site_row edge_id site);
    } in
    let same = insert_edge_sites-SameIndex edge_id sites db₁ in
    record { symbols = same.symbols; next_symbol_id = same.next_symbol_id; edges = same.edges }

pub delete_edge_sites_by_file-SameIndex :
    (db : Database) (path : String) → SameIndex db (delete_edge_sites_by_file db path)
unfolding delete_edge_sites_by_file
delete_edge_sites_by_file-SameIndex db path = (record {
  symbols = refl;
  next_symbol_id = refl;
  edges = refl;
})

pub insert_call_site-SameIndex :
    (serde : Serde) (db : Database) (path : String) (cs : RawCallSite)
    → SameIndex db (insert_call_site serde db path cs)
unfolding insert_call_site
insert_call_site-SameIndex serde db path cs = (record {
  symbols = refl;
  next_symbol_id = refl;
  edges = refl;
})

pub delete_call_sites_by_file-SameIndex :
    (db : Database) (path : String) → SameIndex db (delete_call_sites_by_file db path)
unfolding delete_call_sites_by_file
delete_call_sites_by_file-SameIndex db path = (record {
  symbols = refl;
  next_symbol_id = refl;
  edges = refl;
})

pub upsert_binding-SameIndex :
    (db : Database) (id : ℕ) (binding : RawFfiBinding) (db' : Database)
    → upsert_binding db id binding ≡ ok db'
    → SameIndex db db'
unfolding upsert_binding
upsert_binding-SameIndex db id binding db' e = elim (Option-cases (symbol_by_id db.symbols id)) [
  | inl missing ↦ absurd (cc (rw (upsert_binding, missing) at e))
  | inr (s, found) ↦
      subst (SameIndex db) (ok-injective _ _ (rw (upsert_binding, found) at e))
        (record { symbols = refl; next_symbol_id = refl; edges = refl })
]

pub delete_bindings_for_symbol-SameIndex :
    (db : Database) (id : ℕ) → SameIndex db (delete_bindings_for_symbol db id)
unfolding delete_bindings_for_symbol
delete_bindings_for_symbol-SameIndex db id = (record {
  symbols = refl;
  next_symbol_id = refl;
  edges = refl;
})

pub put_module_lookup-SameIndex :
    (serde : Serde) (db : Database) (workspace_id : String) (lookup : ModuleLookup) (db' : Database)
    → put_module_lookup serde db workspace_id lookup ≡ ok db'
    → SameIndex db db'
unfolding put_module_lookup
put_module_lookup-SameIndex serde db workspace_id lookup db' e =
    let (payload, _, done) = ok_of_bind (serde.encode_to_vec lookup) _ e in
    subst (SameIndex db) (ok-injective _ _ done)
      (record { symbols = refl; next_symbol_id = refl; edges = refl })
