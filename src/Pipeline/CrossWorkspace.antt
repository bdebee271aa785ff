-- ===== src/Pipeline/CrossWorkspace.antt =====
-- crates/standardoc-core/src/pipeline/cross_workspace_post.rs: edges to other workspaces, after the
-- extraction of a file. The resolver is a function: what it remembers does not change its answers.
pub mod Chain
pub mod Rewrite
pub mod Files
pub mod Resolver
use standardoc.Base.{
  String, ℕ, Bool, true, false, ◌||◌, Option, none, some, List, [], ◌∷◌, ◌++◌, map, ◌==◌,
  if◌then◌else◌,
}
use standardoc.Base.Text.{append, strip_prefix}
use standardoc.Base.Segments.{segments, join}
use standardoc.Ir.Kinds.{Language}
use standardoc.Ir.Edge.{RawEdge, ResolvedOrUnresolved, default_confidence}
use standardoc.Ir.Lookup.{ModuleLookup}
use standardoc.Ir.Symbol.{ExtractedFile}
use standardoc.Ir.CrossWorkspace.{CrossWorkspaceLookup, bridge_slug}

unfoldable pub language_supports_workspace_prefix : Language → Bool
language_supports_workspace_prefix Language.rust = true
language_supports_workspace_prefix Language.type_script = true
language_supports_workspace_prefix Language.java_script = true
language_supports_workspace_prefix Language.lua = true
language_supports_workspace_prefix Language.vue = false
language_supports_workspace_prefix Language.svelte = false
language_supports_workspace_prefix Language.c = true

unfoldable pub is_local : String → String → Bool
unfolding strip_prefix
is_local fqdn local_prefix =
    if fqdn == local_prefix then true else elim (strip_prefix local_prefix fqdn) [
      | none ↦ false
      | some rest ↦ elim (strip_prefix "::" rest) [ none ↦ false | some _ ↦ true ]
    ]

abbrev pub has_attr : List String → String → Bool
has_attr [] attr = false
has_attr (a ∷ attrs) attr = let rest = has_attr attrs attr in if a == attr then true else rest

abbrev pub push_missing : List String → String → List String
push_missing attrs attr = if has_attr attrs attr then attrs else attrs ++ attr ∷ []

unfoldable pub stamp_attrs : List String → String → List String
unfolding append
stamp_attrs attrs workspace_id =
    push_missing (push_missing attrs "cross-workspace") (append "peer-" workspace_id)

-- A split of a path: the segments before, one segment, and the segments behind.
pub record Split : Type 0 where
  pub prefix : List String
  pub head : String
  pub tail : List String

-- The longest prefix comes first, and no prefix is empty.
unfoldable pub splits_after : List String → List String → List Split
splits_after prefix [] = []
splits_after prefix (head ∷ tail) =
    splits_after (prefix ++ head ∷ []) tail
    ++ record { prefix = prefix; head = head; tail = tail } ∷ []

-- `format!("{fqdn}::{t}")`, if something is left.
abbrev pub with_tail : String → List String → String
with_tail fqdn [] = fqdn
with_tail fqdn (t ∷ ts) = append fqdn (append "::" (join (t ∷ ts)))

abbrev pub or_else :
    Option CrossWorkspaceLookup → CrossWorkspaceLookup → Option CrossWorkspaceLookup
or_else none new = some new
or_else (some old) new = some old

-- The outcome of a candidate that is not local.
unfoldable pub apply_outcome : RawEdge → String → CrossWorkspaceLookup → RawEdge
unfolding stamp_attrs default_confidence
apply_outcome edge candidate (CrossWorkspaceLookup.hit workspace_id fqdn) =
    let to = ResolvedOrUnresolved.resolved fqdn in
    record edge {
      to = to;
      attributes = stamp_attrs edge.attributes workspace_id;
      confidence = default_confidence to;
    }
apply_outcome edge candidate (CrossWorkspaceLookup.known_peer_missing_symbol workspace_id) =
    let to = ResolvedOrUnresolved.unresolved_bridge bridge_slug candidate in
    record edge {
      to = to;
      attributes = stamp_attrs edge.attributes workspace_id;
      confidence = default_confidence to;
    }
apply_outcome edge candidate CrossWorkspaceLookup.unknown = edge

module _ (resolve : String → String → CrossWorkspaceLookup) where
  unfoldable pub first_answer :
      List Split → Option CrossWorkspaceLookup → Option CrossWorkspaceLookup
  unfolding join append
  first_answer [] fallback = fallback
  first_answer (s ∷ splits) fallback = elim (resolve (join s.prefix) s.head) [
    | CrossWorkspaceLookup.hit workspace_id fqdn ↦
        some (CrossWorkspaceLookup.hit workspace_id (with_tail fqdn s.tail))
    | CrossWorkspaceLookup.known_peer_missing_symbol workspace_id ↦
        first_answer splits
          (or_else fallback (CrossWorkspaceLookup.known_peer_missing_symbol workspace_id))
    | CrossWorkspaceLookup.unknown ↦ first_answer splits fallback
  ]

  unfoldable pub resolve_segments : List String → Option CrossWorkspaceLookup
  unfolding first_answer splits_after
  resolve_segments [] = none
  resolve_segments (first ∷ rest) = first_answer (splits_after (first ∷ []) rest) none

  unfoldable pub resolve_with_suffix_chain : String → Option CrossWorkspaceLookup
  unfolding resolve_segments segments
  resolve_with_suffix_chain candidate = resolve_segments (segments candidate)

  unfoldable pub rewrite_candidate : String → RawEdge → String → RawEdge
  unfolding is_local resolve_with_suffix_chain apply_outcome
  rewrite_candidate local_prefix edge candidate =
      if is_local candidate local_prefix then edge else elim (resolve_with_suffix_chain candidate) [
        | none ↦ edge
        | some outcome ↦ apply_outcome edge candidate outcome
      ]

  -- `match &edge.to`
  unfoldable pub rewrite_target : String → RawEdge → ResolvedOrUnresolved → RawEdge
  unfolding rewrite_candidate
  rewrite_target local_prefix edge (ResolvedOrUnresolved.resolved fqdn) =
      rewrite_candidate local_prefix edge fqdn
  rewrite_target local_prefix edge (ResolvedOrUnresolved.unresolved name) =
      rewrite_candidate local_prefix edge name
  rewrite_target local_prefix edge (ResolvedOrUnresolved.unresolved_bridge _ _) = edge

  unfoldable pub rewrite_edge : String → RawEdge → RawEdge
  unfolding rewrite_target
  rewrite_edge local_prefix edge = rewrite_target local_prefix edge edge.to

  unfoldable pub rewrite_cross_workspace_edges : ExtractedFile → ExtractedFile
  unfolding rewrite_edge language_supports_workspace_prefix segments
  rewrite_cross_workspace_edges extracted = elim extracted.module_lookup [
    | none ↦ extracted
    | some lookup ↦
        if language_supports_workspace_prefix lookup.language
        then elim (segments lookup.module_fqdn) [
          | [] ↦ extracted
          | local_prefix ∷ _ ↦
              if local_prefix == ""
              then extracted
              else record extracted { edges = map (rewrite_edge local_prefix) extracted.edges }
        ]
        else extracted
  ]
