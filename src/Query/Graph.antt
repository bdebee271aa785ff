-- ===== src/Query/Graph.antt =====
-- crates/standardoc-core/src/query/graph.rs: the part of the graph that the viewer draws. A `HashSet`
-- is a list without an order that matters. `projects` is what `load_graph_projects` reads.
pub mod Edges
pub mod Stored
pub mod Rounds
pub mod Loaded
pub mod Grows
pub mod Depth
pub mod Whole
use standardoc.Base.{
  String, ℕ, zero, suc, ◌-◌, Bool, true, false, ◌&&◌, ◌||◌, not, Option, none, some, List, [], ◌∷◌,
  ◌++◌, map, keep_if, length, eqb, leb, ltb, min, ◌==◌, if◌then◌else◌,
}
use mathlib.Core.Option
use standardoc.Base.Sort.{text_leb, sort_by}
use standardoc.Ir.Kinds.{Kind, Visibility, DeclKind, EntryPointKind, EdgeKind}
use standardoc.Ir.Edge.{RawEdge, ResolvedOrUnresolved}
use standardoc.Storage.Error.{Result, ok, err, StorageError, RusqliteError, ◌>>=◌}
use standardoc.Storage.Conv.{
  decl_kind_from_sql_text, entry_point_from_sql_text, kind_from_sql_text, visibility_from_sql_text,
}
use standardoc.Storage.Database.{Database, SymbolRow, FileRow, symbol_by_key, file_by_path}
use standardoc.Pipeline.Writer.{primary_workspace_id}
use standardoc.Query.Rows.{u32_max, edges_from, edges_to}
use standardoc.Query.Looks.{fqdn_looks_like_test, file_path_looks_like_test}

abbrev pub bounded_list_page : ℕ
bounded_list_page = 100

pub record GraphRequest : Type 0 where
  pub focal : Option String
  pub depth : ℕ
  pub kinds : Option (List EdgeKind)
  pub max_nodes : ℕ
  pub include_external : Bool

pub record GraphSymbol : Type 0 where
  pub fqdn : String
  pub name : String
  pub kind : Kind
  pub visibility : Visibility
  pub module_name : Option String
  pub language_kind : String
  pub is_external : Bool
  pub is_test : Bool
  pub file : String
  pub start_line : ℕ
  pub project_id : Option ℕ
  pub decl_kind : Option DeclKind
  pub implements_trait : Option String
  pub receiver_type : Option String
  pub entry_point : Option EntryPointKind

pub record GraphEdge : Type 0 where
  pub from : String
  pub to : String
  pub kind : EdgeKind
  pub outbound : Bool

pub record GraphProject : Type 0 where
  pub project_id : ℕ
  pub label : String
  pub kind : String
  pub rel_path : String

pub record GraphResponse : Type 0 where
  pub symbols : List GraphSymbol
  pub edges : List GraphEdge
  pub projects : List GraphProject
  pub focal : Option String

-- The derived equality.
abbrev pub edge_kind_index : EdgeKind → ℕ
edge_kind_index EdgeKind.calls = 0
edge_kind_index EdgeKind.imports = 1
edge_kind_index EdgeKind.extends = 2
edge_kind_index EdgeKind.implements = 3
edge_kind_index EdgeKind.references = 4
edge_kind_index EdgeKind.uses_type = 5

abbrev pub same_kind : EdgeKind → EdgeKind → Bool
same_kind a b = eqb (edge_kind_index a) (edge_kind_index b)

abbrev pub has_kind : List EdgeKind → EdgeKind → Bool
has_kind [] kind = false
has_kind (k ∷ ks) kind = let rest = has_kind ks kind in if same_kind k kind then true else rest

unfoldable pub kind_allowed : Option (List EdgeKind) → EdgeKind → Bool
kind_allowed none kind = true
kind_allowed (some allow) kind = has_kind allow kind

unfoldable pub resolved_fqdn : ResolvedOrUnresolved → Option String
resolved_fqdn (ResolvedOrUnresolved.resolved fqdn) = some fqdn
resolved_fqdn (ResolvedOrUnresolved.unresolved _) = none
resolved_fqdn (ResolvedOrUnresolved.unresolved_bridge _ _) = none

-- `visited.contains(fqdn)`
abbrev pub has_text : List String → String → Bool
has_text [] fqdn = false
has_text (s ∷ ss) fqdn = let rest = has_text ss fqdn in if s == fqdn then true else rest

-- `seen_edges`, whose keys are those of the edges that were pushed.
abbrev pub has_edge_key : List GraphEdge → String → String → EdgeKind → Bool
has_edge_key [] from to kind = false
has_edge_key (e ∷ es) from to kind =
    let rest = has_edge_key es from to kind in
    if e.from == from && (e.to == to && same_kind e.kind kind) then true else rest

unfoldable pub push_edge : List GraphEdge → String → String → EdgeKind → Bool → List GraphEdge
push_edge edges from to kind outbound =
    if has_edge_key edges from to kind
    then edges
    else edges ++ record { from = from; to = to; kind = kind; outbound = outbound } ∷ []

unfoldable pub symbol_exists : Database → String → Bool
unfolding symbol_by_key
symbol_exists db fqdn = elim (symbol_by_key db.symbols primary_workspace_id fqdn) [
  | none ↦ false
  | some _ ↦ true
]

-- What the rounds of the search change.
pub record Search : Type 0 where
  pub visited : List String
  pub next_frontier : List String
  pub edges : List GraphEdge

-- `if visited.len() < max_nodes && !visited.contains(target)`
unfoldable pub enqueue : ℕ → String → Search → Search
enqueue max_nodes target s =
    if ltb (length s.visited) max_nodes && not (has_text s.visited target)
    then record s { visited = target ∷ s.visited; next_frontier = s.next_frontier ++ target ∷ [] }
    else s

module _ (kinds : Option (List EdgeKind)) (max_nodes : ℕ) (node : String) where
  unfoldable pub follow_out : RawEdge → Search → Search
  unfolding kind_allowed resolved_fqdn push_edge enqueue
  follow_out e s =
      if kind_allowed kinds e.kind
      then elim (resolved_fqdn e.to) [
        | none ↦ s
        | some target ↦
            enqueue max_nodes target
              (record s { edges = push_edge s.edges node target e.kind true })
      ]
      else s

  unfoldable pub follow_in : RawEdge → Search → Search
  unfolding kind_allowed push_edge enqueue
  follow_in e s =
      if kind_allowed kinds e.kind
      then enqueue max_nodes e.from_fqdn
          (record s { edges = push_edge s.edges e.from_fqdn node e.kind false })
      else s

  unfoldable pub follow_outs : List RawEdge → Search → Search
  unfolding follow_out
  follow_outs [] s = s
  follow_outs (e ∷ es) s = follow_outs es (follow_out e s)

  unfoldable pub follow_ins : List RawEdge → Search → Search
  unfolding follow_in
  follow_ins [] s = s
  follow_ins (e ∷ es) s = follow_ins es (follow_in e s)

abbrev pub is_empty : {A : Type 0} → List A → Bool
is_empty [] = true
is_empty (x ∷ xs) = false

abbrev pub text_or_null : {A : Type 0} → (String → Result A) → Option String → Result (Option A)
text_or_null read none = ok none
text_or_null read (some text) = do value ← read text; ok (some value)

-- `row.get` of a `u32`
abbrev pub get_u32 : ℕ → Result ℕ
get_u32 value =
    if leb value u32_max
    then ok value
    else err (StorageError.sqlite (RusqliteError.other_error "integer out of range"))

abbrev pub get_optional_u32 : Option ℕ → Result (Option ℕ)
get_optional_u32 none = ok none
get_optional_u32 (some value) = do n ← get_u32 value; ok (some n)

-- `LEFT JOIN files f ON f.path = s.file_path`
abbrev pub read_project : Option FileRow → Result (Option ℕ)
read_project none = ok none
read_project (some f) = get_optional_u32 f.project_id

-- The columns of a row.
pub record GraphSymbolRowRaw : Type 0 where
  pub fqdn : String
  pub name : String
  pub kind : String
  pub language_kind : String
  pub module_name : Option String
  pub visibility : String
  pub file_path : String
  pub start_line : ℕ
  pub is_external : Bool
  pub project_id : Option ℕ
  pub decl_kind : Option String
  pub implements_trait : Option String
  pub receiver_type : Option String
  pub entry_point : Option String

unfoldable pub read_graph_symbol : Database → SymbolRow → Result GraphSymbolRowRaw
unfolding file_by_path
read_graph_symbol db s = do
  start_line ← get_u32 s.start_line
  project_id ← read_project (file_by_path db.files s.file_path)
  ok (record {
    fqdn = s.fqdn;
    name = s.name;
    kind = s.kind;
    language_kind = s.language_kind;
    module_name = s.module_name;
    visibility = s.visibility;
    file_path = s.file_path;
    start_line = start_line;
    is_external = s.is_external;
    project_id = project_id;
    decl_kind = s.decl_kind;
    implements_trait = s.implements_trait;
    receiver_type = s.receiver_type;
    entry_point = s.entry_point;
  })

-- `query_map(…).collect()`: all rows are read before the first is converted.
unfoldable pub read_graph_symbols : Database → List SymbolRow → Result (List GraphSymbolRowRaw)
unfolding read_graph_symbol
read_graph_symbols db [] = ok []
read_graph_symbols db (s ∷ ss) = do
  raw ← read_graph_symbol db s
  raws ← read_graph_symbols db ss
  ok (raw ∷ raws)

unfoldable pub build_graph_symbol : GraphSymbolRowRaw → Result GraphSymbol
unfolding decl_kind_from_sql_text entry_point_from_sql_text kind_from_sql_text
    visibility_from_sql_text fqdn_looks_like_test file_path_looks_like_test
build_graph_symbol raw = do
  decl_kind ← text_or_null decl_kind_from_sql_text raw.decl_kind
  entry_point ← text_or_null entry_point_from_sql_text raw.entry_point
  kind ← kind_from_sql_text raw.kind
  visibility ← visibility_from_sql_text raw.visibility
  ok (record {
    fqdn = raw.fqdn;
    name = raw.name;
    kind = kind;
    visibility = visibility;
    module_name = raw.module_name;
    language_kind = raw.language_kind;
    is_external = raw.is_external;
    is_test = fqdn_looks_like_test raw.fqdn || file_path_looks_like_test raw.file_path;
    file = raw.file_path;
    start_line = raw.start_line;
    project_id = raw.project_id;
    decl_kind = decl_kind;
    implements_trait = raw.implements_trait;
    receiver_type = raw.receiver_type;
    entry_point = entry_point;
  })

unfoldable pub build_graph_symbols : List GraphSymbolRowRaw → Result (List GraphSymbol)
unfolding build_graph_symbol
build_graph_symbols [] = ok []
build_graph_symbols (raw ∷ raws) = do
  symbol ← build_graph_symbol raw
  symbols ← build_graph_symbols raws
  ok (symbol ∷ symbols)

-- `workspace_id = ?1 AND fqdn IN (…) AND (?3 = 1 OR is_external = 0)`
abbrev pub is_shown : List String → Bool → SymbolRow → Bool
is_shown fqdns include_external s =
    s.workspace_id == primary_workspace_id
    && (has_text fqdns s.fqdn && (include_external || not s.is_external))

abbrev pub fqdn_leb : SymbolRow → SymbolRow → Bool
fqdn_leb a b = text_leb a.fqdn b.fqdn

unfoldable pub load_graph_symbols : Database → List String → Bool → Result (List GraphSymbol)
unfolding read_graph_symbols build_graph_symbols sort_by text_leb
load_graph_symbols db fqdns include_external = if is_empty fqdns then ok [] else do
  raws ←
      read_graph_symbols db
        (sort_by fqdn_leb (keep_if (is_shown fqdns include_external) db.symbols))
  build_graph_symbols raws

-- `workspace_id = ?1 AND (?2 = 1 OR is_external = 0) AND (?3 IS NULL OR fqdn > ?3)`
abbrev pub is_listed : Bool → Option String → SymbolRow → Bool
is_listed include_external cursor s =
    s.workspace_id == primary_workspace_id
    && ((include_external || not s.is_external)
        && (elim cursor [ none ↦ true | some last ↦ not (text_leb s.fqdn last) ]))

abbrev pub take : {A : Type 0} → ℕ → List A → List A
take n [] = []
take zero (x ∷ xs) = []
take (suc n) (x ∷ xs) = x ∷ take n xs

unfoldable pub list_fqdns_page : Database → ℕ → Bool → Option String → List String
unfolding sort_by text_leb
list_fqdns_page db limit include_external cursor = take limit (
    map (λ (s : SymbolRow). s.fqdn)
      (sort_by fqdn_leb (keep_if (is_listed include_external cursor) db.symbols)))

-- `page.last()`
abbrev pub last_of : {A : Type 0} → A → List A → A
last_of x [] = x
last_of x (y ∷ ys) = last_of y ys

-- The loop over the pages: each adds a name, so `max_nodes` rounds are enough.
unfoldable pub list_pages : Database → ℕ → Bool → ℕ → Option String → List String → List String
unfolding list_fqdns_page
list_pages db max_nodes include_external zero cursor out = out
list_pages db max_nodes include_external (suc fuel) cursor out = elim (ltb (length out) max_nodes) [
  | false ↦ out
  | true ↦
      let page_size = min (max_nodes - length out) bounded_list_page in
      elim (list_fqdns_page db page_size include_external cursor) [
        | [] ↦ out
        | first ∷ rest ↦ elim (eqb (length (first ∷ rest)) page_size) [
          | false ↦ out ++ first ∷ rest
          | true ↦
              list_pages db max_nodes include_external fuel (some (last_of first rest))
                (out ++ first ∷ rest)
        ]
      ]
]

unfoldable pub list_bounded_fqdns : Database → ℕ → Bool → List String
unfolding list_pages
list_bounded_fqdns db max_nodes include_external =
    list_pages db max_nodes include_external max_nodes none []

-- The edges of the bounded mode.
unfoldable pub collect_out :
    Option (List EdgeKind) → List String → String → List RawEdge → List GraphEdge → List GraphEdge
unfolding kind_allowed resolved_fqdn push_edge
collect_out kinds nodes from [] edges = edges
collect_out kinds nodes from (e ∷ es) edges = collect_out kinds nodes from es (
    if kind_allowed kinds e.kind
    then elim (resolved_fqdn e.to) [
      | none ↦ edges
      | some target ↦
          if has_text nodes target then push_edge edges from target e.kind true else edges
    ]
    else edges)

abbrev pub ships : List GraphSymbol → String → Bool
ships symbols fqdn = has_text (map (λ (s : GraphSymbol). s.fqdn) symbols) fqdn

module _ (from_str : String → Option (List String)) where
  unfoldable pub expand_node :
      Database → Option (List EdgeKind) → ℕ → String → Search → Result Search
  unfolding edges_from edges_to follow_outs follow_ins
  expand_node db kinds max_nodes node s = do
    outs ← edges_from from_str db node
    ins ← edges_to from_str db node
    ok (follow_ins kinds max_nodes node ins (follow_outs kinds max_nodes node outs s))

  unfoldable pub expand_all :
      Database → Option (List EdgeKind) → ℕ → List String → Search → Result Search
  unfolding expand_node
  expand_all db kinds max_nodes [] s = ok s
  expand_all db kinds max_nodes (node ∷ frontier) s = do
    s' ← expand_node db kinds max_nodes node s
    expand_all db kinds max_nodes frontier s'

  -- `for _ in 0..depth`
  unfoldable pub rounds :
      Database → Option (List EdgeKind) → ℕ → ℕ → List String → Search → Result Search
  unfolding expand_all
  rounds db kinds max_nodes zero frontier s = ok s
  rounds db kinds max_nodes (suc depth) frontier s =
      elim (leb max_nodes (length s.visited) || is_empty frontier) [
        | true ↦ ok s
        | false ↦
            expand_all db kinds max_nodes frontier (record s { next_frontier = [] })
            >>= (λ s'. rounds db kinds max_nodes depth s'.next_frontier s')
      ]

  unfoldable pub collect_all :
      Database
      → Option (List EdgeKind)
      → List String
      → List String
      → List GraphEdge
      → Result (List GraphEdge)
  unfolding collect_out edges_from
  collect_all db kinds nodes [] edges = ok edges
  collect_all db kinds nodes (from ∷ froms) edges = do
    outs ← edges_from from_str db from
    collect_all db kinds nodes froms (collect_out kinds nodes from outs edges)

module _ (from_str : String → Option (List String)) (projects : Result (List GraphProject)) where
  unfoldable pub compose_focal :
      Database → String → ℕ → Option (List EdgeKind) → ℕ → Bool → Result GraphResponse
  unfolding symbol_exists rounds load_graph_symbols
  compose_focal db focal depth kinds max_nodes include_external =
      if symbol_exists db focal
      then (do
        found ←
            rounds from_str db kinds max_nodes depth (focal ∷ [])
              (record { visited = focal ∷ []; next_frontier = []; edges = [] })
        symbols ← load_graph_symbols db found.visited include_external
        listed ← projects
        ok (record {
          symbols = symbols;
          edges =
              keep_if (λ (e : GraphEdge). ships symbols e.from && ships symbols e.to) found.edges;
          projects = listed;
          focal = some focal;
        }))
      else ok (record { symbols = []; edges = []; projects = []; focal = some focal })

  unfoldable pub compose_bounded :
      Database → Option (List EdgeKind) → ℕ → Bool → Result GraphResponse
  unfolding list_bounded_fqdns collect_all load_graph_symbols
  compose_bounded db kinds max_nodes include_external =
      let nodes = list_bounded_fqdns db max_nodes include_external in
      (do
        edges ← collect_all from_str db kinds nodes nodes []
        symbols ← load_graph_symbols db nodes include_external
        listed ← projects
        ok (record { symbols = symbols; edges = edges; projects = listed; focal = none }))

  unfoldable pub fetch_graph : Database → GraphRequest → Result GraphResponse
  unfolding compose_focal compose_bounded
  fetch_graph db req = elim req.focal [
    | some focal ↦ compose_focal db focal req.depth req.kinds req.max_nodes req.include_external
    | none ↦ compose_bounded db req.kinds req.max_nodes req.include_external
  ]
