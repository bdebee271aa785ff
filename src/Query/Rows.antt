-- ===== src/Query/Rows.antt =====
-- crates/standardoc-core/src/query/rows.rs and the queries of edges in query.rs. `from_str` is
-- serde_json on a list of texts, none where it fails.
use standardoc.Base.{
  String, ℕ, ◌^◌, ◌-◌, Bool, ◌&&◌, ◌||◌, Option, none, some, List, [], ◌∷◌, map, keep_if,
  concat_map, eqb, ltb, leb, ◌==◌, if◌then◌else◌,
}
use standardoc.Base.Sort.{text_leb, sort_by}
use mathlib.Core.Option
use standardoc.Ir.Edge.{Site, RawEdge, ResolvedOrUnresolved}
use standardoc.Storage.Error.{Result, ok, err, StorageError, ◌>>=◌}
use standardoc.Storage.Conv.{edge_kind_from_sql_text, edge_confidence_from_sql_text}
use standardoc.Storage.Database.{
  Database, SymbolRow, EdgeRow, EdgeSiteRow, has_id, symbol_by_id, symbol_by_key,
}
use standardoc.Storage.Symbols.{points_to, leaves}
use standardoc.Pipeline.Writer.{primary_workspace_id}

abbrev pub u32_max : ℕ
u32_max = 2 ^ 32 - 1

unfoldable pub position_to_u32 : String → ℕ → Result ℕ
position_to_u32 field value =
    if leb value u32_max
    then ok value
    else err (StorageError.invalid_stored_data "out of u32 range" field)

unfoldable pub lookup_fqdn_by_id : Database → ℕ → Option String
unfolding symbol_by_id
lookup_fqdn_by_id db id = Option.map (λ (s : SymbolRow). s.fqdn) (symbol_by_id db.symbols id)

unfoldable pub lookup_id_by_fqdn : Database → String → Option ℕ
unfolding symbol_by_key
lookup_id_by_fqdn db fqdn =
    Option.map (λ (s : SymbolRow). s.id) (symbol_by_key db.symbols primary_workspace_id fqdn)

-- `ORDER BY file_path ASC, line ASC, col ASC`
abbrev pub site_leb : EdgeSiteRow → EdgeSiteRow → Bool
site_leb a b =
    if a.file_path == b.file_path
    then ltb a.line b.line || (eqb a.line b.line && leb a.col b.col)
    else text_leb a.file_path b.file_path

unfoldable pub build_sites : List EdgeSiteRow → Result (List Site)
unfolding position_to_u32
build_sites [] = ok []
build_sites (s ∷ ss) = do
  line ← position_to_u32 "edge_sites.line" s.line
  col ← position_to_u32 "edge_sites.col" s.col
  sites ← build_sites ss
  ok (record { file = s.file_path; line = line; col = col } ∷ sites)

unfoldable pub load_edge_sites : Database → ℕ → Result (List Site)
unfolding build_sites sort_by text_leb
load_edge_sites db edge_id =
    build_sites
      (sort_by site_leb (keep_if (λ (s : EdgeSiteRow). eqb s.edge_id edge_id) db.edge_sites))

-- The end of a stored edge.
unfoldable pub build_target : Database → EdgeRow → Result ResolvedOrUnresolved
unfolding lookup_fqdn_by_id
build_target db raw = elim raw.to_symbol_id [
  | some id ↦ elim raw.to_unresolved [
    | some _ ↦
        err (StorageError.invalid_stored_data "violates XOR (to_symbol_id, to_unresolved)" "")
    | none ↦ elim (lookup_fqdn_by_id db id) [
      | some fqdn ↦ ok (ResolvedOrUnresolved.resolved fqdn)
      | none ↦ err (StorageError.invalid_stored_data "points to deleted symbol" "")
    ]
  ]
  | none ↦ elim raw.to_unresolved [
    | some name ↦ ok (ResolvedOrUnresolved.unresolved name)
    | none ↦ err (StorageError.invalid_stored_data "violates XOR (to_symbol_id, to_unresolved)" "")
  ]
]

abbrev pub parse_attributes : Option (List String) → Result (List String)
parse_attributes (some attributes) = ok attributes
parse_attributes none = err (StorageError.invalid_stored_data "malformed attributes JSON" "")

module _ (from_str : String → Option (List String)) where
  unfoldable pub build_edge : Database → EdgeRow → String → Result RawEdge
  unfolding build_target load_edge_sites edge_kind_from_sql_text edge_confidence_from_sql_text
  build_edge db raw from_fqdn = do
    kind ← edge_kind_from_sql_text raw.kind
    to ← build_target db raw
    sites ← load_edge_sites db raw.id
    attributes ← parse_attributes (from_str raw.attributes)
    confidence ← edge_confidence_from_sql_text raw.confidence
    ok (record {
      from_fqdn = from_fqdn;
      kind = kind;
      to = to;
      sites = sites;
      attributes = attributes;
      confidence = confidence;
      receiver_type = raw.receiver_type;
    })

  unfoldable pub build_edges : Database → List (EdgeRow × String) → Result (List RawEdge)
  unfolding build_edge
  build_edges db [] = ok []
  build_edges db ((row, from_fqdn) ∷ rows) = do
    edge ← build_edge db row from_fqdn
    edges ← build_edges db rows
    ok (edge ∷ edges)

  -- The rows stand in the order of their ids.
  unfoldable pub edges_from : Database → String → Result (List RawEdge)
  unfolding build_edges lookup_id_by_fqdn
  edges_from db fqdn = elim (lookup_id_by_fqdn db fqdn) [
    | none ↦ ok []
    | some id ↦ build_edges db (map (λ e. (e, fqdn)) (keep_if (leaves id) db.edges))
  ]

  -- `(?1 IS NOT NULL AND e.to_symbol_id = ?1) OR e.to_unresolved = ?2`
  abbrev pub enters : Option ℕ → String → EdgeRow → Bool
  enters target_id fqdn e =
      (elim target_id [ none ↦ Bool.false | some id ↦ points_to id e ])
      || (elim e.to_unresolved [ none ↦ Bool.false | some name ↦ name == fqdn ])

  -- `JOIN symbols f ON f.id = e.from_symbol_id`
  abbrev pub with_source : List SymbolRow → EdgeRow → List (EdgeRow × String)
  with_source symbols e =
      map (λ (f : SymbolRow). (e, f.fqdn)) (keep_if (has_id e.from_symbol_id) symbols)

  unfoldable pub edges_to : Database → String → Result (List RawEdge)
  unfolding build_edges lookup_id_by_fqdn
  edges_to db fqdn = build_edges db (
      concat_map (with_source db.symbols)
        (keep_if (enters (lookup_id_by_fqdn db fqdn) fqdn) db.edges))
