-- ===== src/Storage/Edges.antt =====
-- crates/standardoc-core/src/storage/edges.rs.
use standardoc.Base.{
  String, ℕ, suc, Bool, true, false, Option, none, some, List, [], ◌∷◌, ◌++◌, map, ◌==◌,
  if◌then◌else◌,
}
use standardoc.Base.Text.{append}
use standardoc.Ir.Edge.{RawEdge, ResolvedOrUnresolved}
use standardoc.Storage.Error.{Result, ok, err, ◌>>=◌, ◌>>◌}
use standardoc.Storage.Serde.{Serde}
use standardoc.Storage.Conv.{edge_kind_to_sql_text, edge_confidence_to_sql_text}
use standardoc.Storage.Database.{
  Database, SymbolRow, EdgeRow, foreign_key_failed, symbol_by_key, symbol_by_id,
}
use standardoc.Storage.Symbols.{check_bridge, delete_edges, leaves}

unfoldable pub lookup_or_fallback : Database → String → String → Option ℕ × Option String
unfolding symbol_by_key
lookup_or_fallback db fqdn workspace_id = elim (symbol_by_key db.symbols workspace_id fqdn) [
  | some s ↦ (some s.id, none)
  | none ↦ (none, some fqdn)
]

unfoldable pub resolve_target :
    Database → ResolvedOrUnresolved → String → Result (Option ℕ × Option String)
unfolding lookup_or_fallback check_bridge append
resolve_target db (ResolvedOrUnresolved.resolved fqdn) workspace_id =
    ok (lookup_or_fallback db fqdn workspace_id)
resolve_target db (ResolvedOrUnresolved.unresolved name) workspace_id =
    ok (lookup_or_fallback db name workspace_id)
resolve_target db (ResolvedOrUnresolved.unresolved_bridge bridge name) workspace_id =
    check_bridge bridge
    >> ok (lookup_or_fallback db (append bridge (append "::" name)) workspace_id)

-- The INSERT, with its foreign key on `symbols(id)`.
unfoldable pub insert_edge_row :
    Serde → Database → ℕ → RawEdge → Option ℕ × Option String → Result (Database × ℕ)
unfolding symbol_by_id edge_kind_to_sql_text edge_confidence_to_sql_text
insert_edge_row serde db from_symbol_id edge (to_symbol_id, to_unresolved) =
    elim (symbol_by_id db.symbols from_symbol_id) [
      | none ↦ err foreign_key_failed
      | some _ ↦ ok (
        record db {
          edges =
              db.edges
              ++ record {
                id = db.next_edge_id;
                from_symbol_id = from_symbol_id;
                kind = edge_kind_to_sql_text edge.kind;
                to_symbol_id = to_symbol_id;
                to_unresolved = to_unresolved;
                attributes = serde.strings_to_string edge.attributes;
                confidence = edge_confidence_to_sql_text edge.confidence;
                receiver_type = edge.receiver_type;
              }
                ∷ [];
          next_edge_id = suc db.next_edge_id;
        },
        db.next_edge_id,
      )
    ]

unfoldable pub insert_edge : Serde → Database → ℕ → RawEdge → String → Result (Database × ℕ)
unfolding resolve_target insert_edge_row
insert_edge serde db from_symbol_id edge workspace_id = do
  target ← resolve_target db edge.to workspace_id
  insert_edge_row serde db from_symbol_id edge target

-- `to_unresolved IN (SELECT fqdn FROM symbols WHERE id IN (…))`
unfoldable pub names_one_of : List SymbolRow → List ℕ → String → Bool
unfolding symbol_by_id
names_one_of symbols [] name = false
names_one_of symbols (id ∷ ids) name =
    let rest = names_one_of symbols ids name in
    elim (symbol_by_id symbols id) [ none ↦ rest | some s ↦ if s.fqdn == name then true else rest ]

-- The sub-select: the symbol of that name in the workspace of the edge's source.
unfoldable pub promotion_target : List SymbolRow → ℕ → String → Option SymbolRow
unfolding symbol_by_id symbol_by_key
promotion_target symbols from_symbol_id name = elim (symbol_by_id symbols from_symbol_id) [
  | none ↦ none
  | some f ↦ symbol_by_key symbols f.workspace_id name
]

unfoldable pub promote_edge : List SymbolRow → List ℕ → EdgeRow → EdgeRow
unfolding names_one_of promotion_target
promote_edge symbols ids e = elim e.to_unresolved [
  | none ↦ e
  | some name ↦ elim (names_one_of symbols ids name) [
    | false ↦ e
    | true ↦ elim (promotion_target symbols e.from_symbol_id name) [
      | none ↦ e
      | some t ↦ record e { to_symbol_id = some t.id; to_unresolved = none }
    ]
  ]
]

-- The count of changed rows is not used by the caller.
unfoldable pub promote_unresolved_batch : Database → List ℕ → Database
unfolding promote_edge
promote_unresolved_batch db [] = db
promote_unresolved_batch db (id ∷ ids) = record db {
  edges = map (promote_edge db.symbols (id ∷ ids)) db.edges;
}

unfoldable pub delete_edges_from : Database → ℕ → Database
unfolding delete_edges
delete_edges_from db from_symbol_id = delete_edges db (leaves from_symbol_id)
