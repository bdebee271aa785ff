-- ===== src/Query/Graph/Loaded.antt =====
-- The symbols that are loaded for the viewer, by their names.
use standardoc.Base.{
  String, ◌≡◌, sym as inverse, ap, subst, ◌∙◌, inl, inr, Bool, true, Option, List, [], ◌∷◌, map, In,
  keep_if, keep_if_sound, keep_if_complete, Bool-cases,
}
use standardoc.Base.Sort.{sort_by, In-sort_by, In-sort_by_of}
use standardoc.Ir.Kinds.{EdgeKind}
use standardoc.Storage.Error.{ok, ◌>>=◌, ok_of_bind, ok-injective}
use standardoc.Storage.Conv.{
  decl_kind_from_sql_text, entry_point_from_sql_text, kind_from_sql_text, visibility_from_sql_text,
}
use standardoc.Storage.Database.{Database, SymbolRow, file_by_path}
use standardoc.Storage.Index.{In-map, In-map_of}
use standardoc.Query.Graph.{
  GraphEdge, GraphSymbol, GraphResponse, get_u32, read_project, text_or_null, GraphSymbolRowRaw,
  read_graph_symbol, read_graph_symbols, build_graph_symbol, build_graph_symbols, is_shown,
  fqdn_leb, load_graph_symbols, is_empty,
}
use standardoc.Query.Graph.Edges.{NoRepeat}
use standardoc.Query.Graph.Stored.{IsStored}

read_graph_symbol-fqdn :
    (db : Database) (s : SymbolRow) (raw : GraphSymbolRowRaw)
    → read_graph_symbol db s ≡ ok raw
    → raw.fqdn ≡ s.fqdn
unfolding read_graph_symbol
read_graph_symbol-fqdn db s raw done =
    let (start_line, _, e₁) = ok_of_bind (get_u32 s.start_line) _ done in
    let (project_id, _, e₂) = ok_of_bind (read_project (file_by_path db.files s.file_path)) _ e₁ in
    inverse (ap (λ (x : GraphSymbolRowRaw). x.fqdn) (ok-injective _ _ e₂))

read_graph_symbols-fqdns :
    (db : Database) (ss : List SymbolRow) (raws : List GraphSymbolRowRaw)
    → read_graph_symbols db ss ≡ ok raws
    → map (λ (r : GraphSymbolRowRaw). r.fqdn) raws ≡ map (λ (s : SymbolRow). s.fqdn) ss
unfolding read_graph_symbols
read_graph_symbols-fqdns db [] raws done =
    ap (map (λ (r : GraphSymbolRowRaw). r.fqdn)) (inverse (ok-injective _ _ done))
read_graph_symbols-fqdns db (s ∷ ss) raws done =
    let (raw, first, e₁) = ok_of_bind (read_graph_symbol db s) _ done in
    let (rest, later, e₂) = ok_of_bind (read_graph_symbols db ss) _ e₁ in
    ap (map (λ (x : GraphSymbolRowRaw). x.fqdn)) (inverse (ok-injective _ _ e₂))
    ∙ ap (λ t. t ∷ map (λ (x : GraphSymbolRowRaw). x.fqdn) rest)
        (read_graph_symbol-fqdn db s raw first)
    ∙ ap (λ ts. s.fqdn ∷ ts) (read_graph_symbols-fqdns db ss rest later)

build_graph_symbol-fqdn :
    (raw : GraphSymbolRowRaw) (g : GraphSymbol) → build_graph_symbol raw ≡ ok g → g.fqdn ≡ raw.fqdn
unfolding build_graph_symbol
build_graph_symbol-fqdn raw g done =
    let (decl_kind, _, e₃) =
      ok_of_bind (text_or_null decl_kind_from_sql_text raw.decl_kind) _ done in
    let (entry_point, _, e₄) =
      ok_of_bind (text_or_null entry_point_from_sql_text raw.entry_point) _ e₃ in
    let (kind, _, e₅) = ok_of_bind (kind_from_sql_text raw.kind) _ e₄ in
    let (visibility, _, e₆) = ok_of_bind (visibility_from_sql_text raw.visibility) _ e₅ in
    inverse (ap (λ (x : GraphSymbol). x.fqdn) (ok-injective _ _ e₆))

build_graph_symbols-fqdns :
    (raws : List GraphSymbolRowRaw) (gs : List GraphSymbol)
    → build_graph_symbols raws ≡ ok gs
    → map (λ (g : GraphSymbol). g.fqdn) gs ≡ map (λ (r : GraphSymbolRowRaw). r.fqdn) raws
unfolding build_graph_symbols
build_graph_symbols-fqdns [] gs done =
    ap (map (λ (g : GraphSymbol). g.fqdn)) (inverse (ok-injective _ _ done))
build_graph_symbols-fqdns (raw ∷ raws) gs done =
    let (g, first, e₁) = ok_of_bind (build_graph_symbol raw) _ done in
    let (rest, later, e₂) = ok_of_bind (build_graph_symbols raws) _ e₁ in
    ap (map (λ (x : GraphSymbol). x.fqdn)) (inverse (ok-injective _ _ e₂))
    ∙ ap (λ t. t ∷ map (λ (x : GraphSymbol). x.fqdn) rest) (build_graph_symbol-fqdn raw g first)
    ∙ ap (λ ts. raw.fqdn ∷ ts) (build_graph_symbols-fqdns raws rest later)

-- The symbols that are read and converted have the names of the rows.
loaded-fqdns :
    (db : Database) (ss : List SymbolRow) (gs : List GraphSymbol)
    → read_graph_symbols db ss >>= build_graph_symbols ≡ ok gs
    → map (λ (g : GraphSymbol). g.fqdn) gs ≡ map (λ (s : SymbolRow). s.fqdn) ss
loaded-fqdns db ss gs done =
    let (raws, read, built) = ok_of_bind (read_graph_symbols db ss) build_graph_symbols done in
    build_graph_symbols-fqdns raws gs built ∙ read_graph_symbols-fqdns db ss raws read

abbrev pub names : List GraphSymbol → List String
names symbols = map (λ (s : GraphSymbol). s.fqdn) symbols

-- The names that are loaded are those of the rows that are shown.
pub load_graph_symbols_sound :
    (db : Database) (fqdns : List String) (include_external : Bool) (gs : List GraphSymbol)
    (t : String)
    → load_graph_symbols db fqdns include_external ≡ ok gs
    → In t (names gs)
    → (s : SymbolRow) × In s db.symbols × (is_shown fqdns include_external s ≡ true) × (t ≡ s.fqdn)
unfolding load_graph_symbols
load_graph_symbols_sound db fqdns include_external gs t done there =
    elim (Bool-cases (is_empty fqdns)) [
      | inl empty ↦ absurd (
          subst (λ xs. In t (names xs))
            (inverse (ok-injective _ _ (rw (load_graph_symbols, empty) at done))) there)
      | inr some_fqdns ↦
          let kept = keep_if (is_shown fqdns include_external) db.symbols in
          let same =
            loaded-fqdns db (sort_by fqdn_leb kept) gs
              (rw (load_graph_symbols, some_fqdns) at done) in
          let (s, sorted, e) = In-map (λ (s : SymbolRow). s.fqdn) t _ (subst (In t) same there) in
          let (held, shown) =
            keep_if_sound (is_shown fqdns include_external) db.symbols s
              (In-sort_by fqdn_leb s kept sorted) in
          (s, held, shown, e)
    ]

pub load_graph_symbols_complete :
    (db : Database) (fqdns : List String) (include_external : Bool) (gs : List GraphSymbol)
    (s : SymbolRow)
    → load_graph_symbols db fqdns include_external ≡ ok gs
    → In s db.symbols
    → In s.fqdn fqdns
    → is_shown fqdns include_external s ≡ true
    → In s.fqdn (names gs)
unfolding load_graph_symbols
load_graph_symbols_complete db [] include_external gs s done held listed shown = absurd listed
load_graph_symbols_complete db (f ∷ fs) include_external gs s done held listed shown =
    let kept = keep_if (is_shown (f ∷ fs) include_external) db.symbols in
    subst (In s.fqdn) (inverse (loaded-fqdns db (sort_by fqdn_leb kept) gs done)) (
      In-map_of (λ (x : SymbolRow). x.fqdn) s _
        (In-sort_by_of fqdn_leb s kept
          (keep_if_complete (is_shown (f ∷ fs) include_external) db.symbols s held shown)))

-- No half edge, each edge once, and each of them a row of the tables and allowed.
pub record IsWhole (db : Database) (kinds : Option (List EdgeKind)) (r : GraphResponse)
    : Type 0 where
  pub ends :
      (g : GraphEdge) → In g r.edges → In g.from (names r.symbols) × In g.to (names r.symbols)
  pub once : NoRepeat r.edges
  pub stored : (g : GraphEdge) → In g r.edges → IsStored db kinds g
