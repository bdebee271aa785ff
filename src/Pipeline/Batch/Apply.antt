-- ===== src/Pipeline/Batch/Apply.antt =====
-- crates/standardoc-core/src/pipeline/batch.rs: how a plan is written to the tables `symbols` and
-- `edges`.
use standardoc.Base.{
  String, ℕ, Bool, true, false, ◌||◌, Option, none, some, List, [], ◌∷◌, ◌++◌, ◌==◌,
}
use mathlib.Core.Option
use standardoc.Ir.Edge.{RawEdge}
use standardoc.Ir.Symbol.{RawSymbol, ExtractedFile}
use standardoc.Storage.Error.{Result, ok, ◌>>=◌}
use standardoc.Storage.Serde.{Serde}
use standardoc.Storage.Database.{Database, SymbolRow, symbol_by_key}
use standardoc.Storage.Symbols.{
  SymbolInsertContext, insert_symbol, update_symbol_positions, delete_symbol,
}
use standardoc.Storage.Edges.{insert_edge, promote_unresolved_batch, delete_edges_from}
use standardoc.Storage.Satellites.{insert_edge_sites}
use standardoc.Pipeline.Diff.{DiffPlan, is_extracted}

unfoldable pub lookup_symbol_id_by_fqdn : Database → String → String → Option ℕ
unfolding symbol_by_key
lookup_symbol_id_by_fqdn db fqdn workspace_id =
    Option.map (λ (s : SymbolRow). s.id) (symbol_by_key db.symbols workspace_id fqdn)

unfoldable pub apply_deletes : Database → List ℕ → Database
unfolding delete_symbol
apply_deletes db [] = db
apply_deletes db (id ∷ ids) = apply_deletes (delete_symbol db id) ids

unfoldable pub apply_position_updates : Database → List (ℕ × RawSymbol) → ℕ → Database
unfolding update_symbol_positions
apply_position_updates db [] revision = db
apply_position_updates db ((id, sym) ∷ updates) revision =
    apply_position_updates (update_symbol_positions db id sym.location revision) updates revision

unfoldable pub apply_modifications :
    Serde → Database → List (ℕ × RawSymbol) → SymbolInsertContext → Result (Database × List ℕ)
unfolding insert_symbol delete_edges_from
apply_modifications serde db [] ctx = ok (db, [])
apply_modifications serde db ((_, sym) ∷ modifications) ctx = do
  (db', id_back) ← insert_symbol serde db sym ctx
  (db'', ids) ← apply_modifications serde (delete_edges_from db' id_back) modifications ctx
  ok (db'', id_back ∷ ids)

unfoldable pub apply_inserts :
    Serde → Database → List RawSymbol → SymbolInsertContext → Result (Database × List ℕ)
unfolding insert_symbol
apply_inserts serde db [] ctx = ok (db, [])
apply_inserts serde db (sym ∷ inserts) ctx = do
  (db', id) ← insert_symbol serde db sym ctx
  (db'', ids) ← apply_inserts serde db' inserts ctx
  ok (db'', id ∷ ids)

-- The two loops of the function; its debug assertion is not part of a release build.
unfoldable pub apply_inserts_and_modifications :
    Serde → Database → DiffPlan → SymbolInsertContext → Result (Database × List ℕ)
unfolding apply_modifications apply_inserts
apply_inserts_and_modifications serde db plan ctx = do
  (db', modified) ← apply_modifications serde db plan.modifications ctx
  (db'', inserted) ← apply_inserts serde db' plan.inserts ctx
  ok (db'', modified ++ inserted)

unfoldable pub is_modified : List (ℕ × RawSymbol) → String → Bool
is_modified [] fqdn = false
is_modified ((_, sym) ∷ modifications) fqdn = sym.fqdn == fqdn || is_modified modifications fqdn

-- `touched_fqdns(plan).contains(fqdn)`
unfoldable pub is_touched : DiffPlan → String → Bool
unfolding is_extracted is_modified
is_touched plan fqdn = is_extracted plan.inserts fqdn || is_modified plan.modifications fqdn

unfoldable pub apply_edge : Serde → Database → DiffPlan → RawEdge → String → Result Database
unfolding is_touched lookup_symbol_id_by_fqdn insert_edge insert_edge_sites
apply_edge serde db plan edge workspace_id = elim (is_touched plan edge.from_fqdn) [
  | false ↦ ok db
  | true ↦ elim (lookup_symbol_id_by_fqdn db edge.from_fqdn workspace_id) [
    | none ↦ ok db
    | some from_id ↦ (do
      (db', edge_id) ← insert_edge serde db from_id edge workspace_id
      ok (insert_edge_sites db' edge_id edge.sites))
  ]
]

unfoldable pub apply_edges : Serde → Database → DiffPlan → List RawEdge → String → Result Database
unfolding apply_edge
apply_edges serde db plan [] workspace_id = ok db
apply_edges serde db plan (edge ∷ edges) workspace_id = do
  db' ← apply_edge serde db plan edge workspace_id
  apply_edges serde db' plan edges workspace_id

abbrev pub insert_context : ExtractedFile → ℕ → String → SymbolInsertContext
insert_context extracted revision workspace_id = record {
  file_path = extracted.file;
  language = extracted.language;
  is_external = extracted.is_external;
  source_origin = extracted.source_origin;
  revision = revision;
  workspace_id = workspace_id;
}

-- The part of the function that writes symbols and edges, up to `promote_unresolved_batch`.
unfoldable pub apply_symbols_and_edges :
    Serde → Database → DiffPlan → ExtractedFile → ℕ → String → Result (Database × List ℕ)
unfolding apply_deletes apply_position_updates apply_inserts_and_modifications apply_edges
    promote_unresolved_batch
apply_symbols_and_edges serde db plan extracted revision workspace_id = do
  let db₁ = apply_deletes db plan.deletions
  let db₂ = apply_position_updates db₁ plan.position_updates revision
  (db₃, ids) ←
      apply_inserts_and_modifications serde db₂ plan
        (insert_context extracted revision workspace_id)
  db₄ ← apply_edges serde db₃ plan extracted.edges workspace_id
  ok (promote_unresolved_batch db₄ ids, ids)
