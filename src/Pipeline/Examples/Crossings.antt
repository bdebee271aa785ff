-- ===== src/Pipeline/Examples/Crossings.antt =====
-- Tests of the edges to other workspaces.
use standardoc.Base.{
  String, ℕ, ◌≡◌, refl, ◌⊎◌, Option, none, some, List, [], ◌∷◌, ◌==◌, if◌then◌else◌,
}
use standardoc.Ir.Kinds.{Language, EdgeConfidence}
use standardoc.Ir.Edge.{RawEdge, ResolvedOrUnresolved}
use standardoc.Ir.Lookup.{ModuleLookup, IdentResolution, BindingSource}
use standardoc.Ir.Symbol.{ExtractedFile}
use standardoc.Ir.CrossWorkspace.{CrossWorkspaceLookup, bridge_slug}
use standardoc.Storage.Database.{Database}
use standardoc.Pipeline.CrossWorkspace.{
  Split, resolve_with_suffix_chain, rewrite_cross_workspace_edges,
}
use standardoc.Pipeline.CrossWorkspace.Chain.{
  Answers, hits, misses, knows_nothing, splits, IsCut, resolve_with_suffix_chain-Answers,
}
use standardoc.Pipeline.CrossWorkspace.Rewrite.{IsRewritten}
use standardoc.Pipeline.CrossWorkspace.Files.{
  Pairwise, HasPrefix, rewrite_cross_workspace_edges-Pairwise, rewrite_cross_workspace_edges_idem,
}
use standardoc.Pipeline.CrossWorkspace.Resolver.{resolve_all, compute_all, resolve_all-compute_all}
use standardoc.Pipeline.Examples.{first_file, call_of_g, empty_database}

-- The peer `lib` re-exports `Span` under another path.
abbrev peer_lib : String → String → CrossWorkspaceLookup
peer_lib origin_module origin_symbol =
    if origin_module == "lib"
    then if origin_symbol == "Span"
      then CrossWorkspaceLookup.hit "lib" "lib::span::Span"
      else CrossWorkspaceLookup.known_peer_missing_symbol "lib"
    else CrossWorkspaceLookup.unknown

tail_kept :
    resolve_with_suffix_chain peer_lib "lib::Span::new"
    ≡ some (CrossWorkspaceLookup.hit "lib" "lib::span::Span::new")
unfolding resolve_with_suffix_chain
tail_kept = refl

peer_missing :
    resolve_with_suffix_chain peer_lib "lib::nothing"
    ≡ some (CrossWorkspaceLookup.known_peer_missing_symbol "lib")
unfolding resolve_with_suffix_chain
peer_missing = refl

resolve_with_suffix_chain-Answers_example :
    Answers peer_lib (splits "lib::Span::new") (resolve_with_suffix_chain peer_lib "lib::Span::new")
    × IsCut "lib::Span::new"
resolve_with_suffix_chain-Answers_example =
    resolve_with_suffix_chain-Answers peer_lib "lib::Span::new"

abbrev lookup_of_a : ModuleLookup
lookup_of_a = record {
  module_fqdn = "a::m";
  language = Language.rust;
  scopes = [];
  bindings = [];
  imports = [];
  built_at_epoch_ms = 0;
  span_to_scope = [];
}

abbrev calling : String → ExtractedFile
calling name = record first_file {
  module_lookup = some lookup_of_a;
  edges = record call_of_g { to = ResolvedOrUnresolved.unresolved name } ∷ [];
}

abbrev called : ResolvedOrUnresolved → EdgeConfidence → RawEdge
called to confidence = record call_of_g {
  to = to;
  attributes = "cross-workspace" ∷ "peer-lib" ∷ [];
  confidence = confidence;
}

hit_rewritten :
    (rewrite_cross_workspace_edges peer_lib (calling "lib::Span::new")).edges
    ≡ called (ResolvedOrUnresolved.resolved "lib::span::Span::new") EdgeConfidence.extracted ∷ []
unfolding rewrite_cross_workspace_edges
hit_rewritten = refl

own_kept : rewrite_cross_workspace_edges peer_lib (calling "a::g") ≡ calling "a::g"
unfolding rewrite_cross_workspace_edges
own_kept = refl

-- A second pass asks about the answer of the first: a name that is given for another one is followed
-- once more.
abbrev moved_twice : String → String → CrossWorkspaceLookup
moved_twice origin_module origin_symbol =
    if origin_symbol == "X"
    then CrossWorkspaceLookup.hit "p" "b::Y"
    else if origin_symbol == "Y"
    then CrossWorkspaceLookup.hit "q" "c::Z"
    else CrossWorkspaceLookup.unknown

second_pass :
    (rewrite_cross_workspace_edges moved_twice
      (rewrite_cross_workspace_edges moved_twice (calling "lib::X"))).edges
    ≡ record call_of_g {
      to = ResolvedOrUnresolved.resolved "c::Z";
      attributes = "cross-workspace" ∷ "peer-p" ∷ "peer-q" ∷ [];
      confidence = EdgeConfidence.extracted;
    }
      ∷ []
unfolding rewrite_cross_workspace_edges
second_pass = refl

rewrite_cross_workspace_edges-Pairwise_example :
    let file = calling "lib::Span::new" in
    let after = rewrite_cross_workspace_edges peer_lib file in
    (after ≡ record file { edges = after.edges })
    × Pairwise
        (λ e e'.
          (e' ≡ e)
          ⊎ ((local_prefix : String) × HasPrefix file local_prefix
              × IsRewritten peer_lib local_prefix e e'))
        file.edges
        after.edges
rewrite_cross_workspace_edges-Pairwise_example =
    rewrite_cross_workspace_edges-Pairwise peer_lib (calling "lib::Span::new")

-- A peer that owns every module and exports nothing never hits.
abbrev bare_peer : String → String → CrossWorkspaceLookup
bare_peer origin_module origin_symbol = CrossWorkspaceLookup.known_peer_missing_symbol "lib"

never_hits :
    (ss : List Split) (answer : Option CrossWorkspaceLookup) (workspace_id fqdn : String)
    → Answers bare_peer ss answer
    → answer ≡ some (CrossWorkspaceLookup.hit workspace_id fqdn)
    → ⊥
never_hits ss answer w f (hits earlier later s w' f' before found) same = absurd (cc found)
never_hits ss answer w f (misses earlier later s w' before found after) same = absurd (cc same)
never_hits ss answer w f (knows_nothing all) same = absurd (cc same)

bridged :
    (rewrite_cross_workspace_edges bare_peer (calling "lib::Span")).edges
    ≡ called
        (ResolvedOrUnresolved.unresolved_bridge bridge_slug "lib::Span")
        EdgeConfidence.inferred
      ∷ []
unfolding rewrite_cross_workspace_edges
bridged = refl

rewrite_cross_workspace_edges_idem_example :
    rewrite_cross_workspace_edges bare_peer
      (rewrite_cross_workspace_edges bare_peer (calling "lib::Span"))
    ≡ rewrite_cross_workspace_edges bare_peer (calling "lib::Span")
rewrite_cross_workspace_edges_idem_example =
    rewrite_cross_workspace_edges_idem bare_peer (calling "lib::Span")
      (λ local_prefix candidate w f found. absurd (
        never_hits (splits candidate) _ w f
          (resolve_with_suffix_chain-Answers bare_peer candidate).0 found))

-- The module `my-crate` of the peer `lib` declares `Span`; the source spells it `my_crate`.
abbrev exported : IdentResolution
exported = record {
  name = "Span";
  source = BindingSource.param;
  resolved_fqdn = none;
  aliases_to = none;
  mutability = none;
  scope_idx = 0;
  attributes = [];
  ir_kind = none;
}

abbrev always : List ℕ → Option ModuleLookup
always bytes =
    some (record lookup_of_a { module_fqdn = "my-crate"; bindings = ("Span", exported ∷ []) ∷ [] })

abbrev with_lookup : Database
with_lookup = record empty_database {
  module_lookups =
      record {
        module_fqdn = "my-crate";
        workspace_id = "lib";
        language = "rust";
        built_at = 0;
        payload = [];
      }
      ∷ [];
}

answers :
    resolve_all always with_lookup [] (("my_crate", "Span") ∷ ("my_crate", "Span") ∷ [])
    ≡ CrossWorkspaceLookup.hit "lib" "my-crate::Span"
      ∷ CrossWorkspaceLookup.hit "lib" "my-crate::Span"
      ∷ []
unfolding resolve_all
answers = refl

resolve_all-compute_all_example :
    resolve_all always with_lookup [] (("my_crate", "Span") ∷ ("my_crate", "Span") ∷ [])
    ≡ compute_all always with_lookup (("my_crate", "Span") ∷ ("my_crate", "Span") ∷ [])
resolve_all-compute_all_example =
    resolve_all-compute_all always with_lookup [] (("my_crate", "Span") ∷ ("my_crate", "Span") ∷ [])
      (λ m s l never. absurd never)
