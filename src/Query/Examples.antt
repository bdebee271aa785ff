-- ===== src/Query/Examples.antt =====
-- Tests of the graph that is drawn, over the workspace of two files.
use standardoc.Base.{String, ℕ, ◌≡◌, refl, true, false, Option, none, some, List, [], ◌∷◌}
use standardoc.Base.Text.{text_eq}
use standardoc.Ir.Kinds.{Kind, Visibility, DeclKind, EdgeKind}
use standardoc.Storage.Error.{Result, ok}
use standardoc.Storage.Database.{Database}
use standardoc.Query.Looks.{fqdn_looks_like_test, file_path_looks_like_test}
use standardoc.Query.Graph.{GraphRequest, GraphResponse, GraphSymbol, GraphProject, fetch_graph}
use standardoc.Query.Graph.Loaded.{IsWhole}
use standardoc.Query.Graph.Whole.{fetch_graph-IsWhole}
use standardoc.Pipeline.Examples.{with_both, edge_row, symbol_row}

abbrev no_texts : String → Option (List String)
no_texts json = some []

abbrev no_projects : Result (List GraphProject)
no_projects = ok []

abbrev around_f : GraphRequest
around_f = record {
  focal = some "a::f";
  depth = 1;
  kinds = none;
  max_nodes = 10;
  include_external = true;
}

abbrev drawn : String → String → String → ℕ → GraphSymbol
drawn name fqdn file line = record {
  fqdn = fqdn;
  name = name;
  kind = Kind.callable;
  visibility = Visibility.public;
  module_name = none;
  language_kind = "rust:fn";
  is_external = false;
  is_test = false;
  file = file;
  start_line = line;
  project_id = none;
  decl_kind = some DeclKind.function;
  implements_trait = none;
  receiver_type = none;
  entry_point = none;
}

abbrev graph_of_f : GraphResponse
graph_of_f = record {
  symbols = drawn "f" "a::f" "a.rs" 1 ∷ drawn "g" "b::g" "b.rs" 5 ∷ [];
  edges = record { from = "a::f"; to = "b::g"; kind = EdgeKind.calls; outbound = true } ∷ [];
  projects = [];
  focal = some "a::f";
}

f_fetched : fetch_graph no_texts no_projects with_both around_f ≡ ok graph_of_f
unfolding fetch_graph text_eq
f_fetched = refl

all_fetched :
    fetch_graph no_texts no_projects with_both (record around_f { focal = none })
    ≡ ok (record graph_of_f { focal = none })
unfolding fetch_graph text_eq
all_fetched = refl

fetch_graph-IsWhole_example : IsWhole with_both none graph_of_f
fetch_graph-IsWhole_example =
    fetch_graph-IsWhole no_texts no_projects with_both around_f graph_of_f f_fetched

-- A limit of no node at all still sends the symbol that was asked for.
above_limit :
    fetch_graph no_texts no_projects with_both (record around_f { max_nodes = 0 })
    ≡ ok (record graph_of_f { symbols = drawn "f" "a::f" "a.rs" 1 ∷ []; edges = [] })
unfolding fetch_graph text_eq
above_limit = refl

-- A peer's symbol `a::f` that names `b::g` of the primary workspace, without being resolved: the
-- search inwards follows it all the same, and draws the edge between the primary symbols.
abbrev with_peer : Database
with_peer = record with_both {
  symbols =
      symbol_row 1 "f" "a::f" "a.rs" 1 "h1" 1
      ∷ symbol_row 2 "g" "b::g" "b.rs" 5 "h2" 2
      ∷ record (symbol_row 3 "f" "a::f" "ws:lib:a.rs" 1 "h1" 1) { workspace_id = "lib" }
      ∷ [];
  edges = record (edge_row none (some "b::g")) { from_symbol_id = 3 } ∷ [];
}

unresolved_drawn :
    fetch_graph no_texts no_projects with_peer (record around_f { focal = some "b::g" })
    ≡ ok (record graph_of_f {
      edges = record { from = "a::f"; to = "b::g"; kind = EdgeKind.calls; outbound = false } ∷ [];
      focal = some "b::g";
    })
unfolding fetch_graph text_eq
unresolved_drawn = refl

looks :
    (fqdn_looks_like_test "crate::tests::it" ≡ true)
    × (fqdn_looks_like_test "crate::testing" ≡ false)
    × (file_path_looks_like_test "src\\tests\\a.rs" ≡ true)
    × (file_path_looks_like_test "src/a_test.rs" ≡ true)
unfolding fqdn_looks_like_test file_path_looks_like_test
looks = (refl, refl, refl, refl)
