-- ===== src/Query/Graph/Depth.antt =====
-- The graph around one symbol is what is within its depth.
use standardoc.Base.{
  String, ℕ, ◌≤◌, ◌<◌, ◌≡◌, sym as inverse, ◌⊎◌, ◌↔◌, true, Option, List, length, In,
}
use standardoc.Ir.Kinds.{EdgeKind}
use standardoc.Storage.Database.{Database, SymbolRow}
use standardoc.Query.Graph.{GraphRequest, GraphResponse, Search, is_shown}
use standardoc.Query.Graph.Grows.{IsExpanded}
use standardoc.Query.Graph.Rounds.{Within}
use standardoc.Query.Graph.Loaded.{names}

module _ (from_str : String → Option (List String)) (db : Database) (kinds : Option (List EdgeKind))
    (max_nodes : ℕ) (focal : String) where
  abbrev Near : ℕ → String → Type 0
  Near = Within from_str db kinds max_nodes focal

  abbrev Expanded : Search → String → Type 0
  Expanded s = IsExpanded kinds max_nodes from_str db s.visited

-- What is drawn around a symbol: the names that the search visited, and their symbols.
pub record IsAround (from_str : String → Option (List String)) (db : Database) (focal : String)
    (req : GraphRequest) (r : GraphResponse) : Type 0 where
  pub visited : List String
  pub few : (length visited ≤ 1) ⊎ (length visited ≤ req.max_nodes)
  pub near :
      (t : String) → In t visited → Within from_str db req.kinds req.max_nodes focal req.depth t
  pub full :
      length visited < req.max_nodes
      → (t : String) → Within from_str db req.kinds req.max_nodes focal req.depth t
      → In t visited
  pub shown :
      (t : String)
      → In t (names r.symbols) ↔ (
          (s : SymbolRow) × In s db.symbols
          × (is_shown visited req.include_external s ≡ true)
          × (t ≡ s.fqdn))
