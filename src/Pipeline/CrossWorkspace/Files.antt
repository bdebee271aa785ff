-- ===== src/Pipeline/CrossWorkspace/Files.antt =====
-- The rewriting of the edges of a file.
use standardoc.Base.{
  String, ◌≡◌, refl, sym as inverse, ap, ap₂, subst, ◌∙◌, ◌⊎◌, inl, inr, true, some, List, [], ◌∷◌,
  map, ◌==◌, Bool-cases, Option-cases,
}
use standardoc.Base.Segments.{segments, segments-cases}
use standardoc.Ir.Edge.{RawEdge}
use standardoc.Ir.Lookup.{ModuleLookup}
use standardoc.Ir.Symbol.{ExtractedFile}
use standardoc.Ir.CrossWorkspace.{CrossWorkspaceLookup}
use standardoc.Pipeline.CrossWorkspace.{
  language_supports_workspace_prefix, rewrite_edge, rewrite_cross_workspace_edges,
}
use standardoc.Pipeline.CrossWorkspace.Rewrite.{
  IsRewritten, IsCanonical, rewrite_edge-IsRewritten, rewrite_edge_idem,
}

-- The edges of two lists are related one by one.
abbrev pub Pairwise : (RawEdge → RawEdge → Type 0) → List RawEdge → List RawEdge → Type 0
Pairwise R [] [] = Unit
Pairwise R [] (y ∷ ys) = ⊥
Pairwise R (x ∷ xs) [] = ⊥
Pairwise R (x ∷ xs) (y ∷ ys) = R x y × Pairwise R xs ys

Pairwise-map :
    (R : RawEdge → RawEdge → Type 0) (f : RawEdge → RawEdge) (xs : List RawEdge)
    → ((x : RawEdge) → R x (f x))
    → Pairwise R xs (map f xs)
Pairwise-map R f [] h = tt
Pairwise-map R f (x ∷ xs) h = (h x, Pairwise-map R f xs h)

map_id : (xs : List RawEdge) → map (λ e. e) xs ≡ xs
map_id [] = refl
map_id (x ∷ xs) = ap (λ ys. x ∷ ys) (map_id xs)

map_idem :
    (f : RawEdge → RawEdge) (xs : List RawEdge)
    → ((x : RawEdge) → f (f x) ≡ f x)
    → map f (map f xs) ≡ map f xs
map_idem f [] h = refl
map_idem f (x ∷ xs) h = ap₂ (λ y ys. y ∷ ys) (h x) (map_idem f xs h)

-- The workspace prefix of a file that takes part.
abbrev pub HasPrefix : ExtractedFile → String → Type 0
HasPrefix file local_prefix =
    (lookup : ModuleLookup) × (rest : List String) × (file.module_lookup ≡ some lookup)
    × (language_supports_workspace_prefix lookup.language ≡ true)
    × (segments lookup.module_fqdn ≡ local_prefix ∷ rest)

module _ (resolve : String → String → CrossWorkspaceLookup) where
  abbrev rewritten : ExtractedFile → ExtractedFile
  rewritten = rewrite_cross_workspace_edges resolve

  -- Either nothing is done, or every edge is rewritten with the prefix of the file.
  rewritten-cases :
      (file : ExtractedFile)
      → (rewritten file ≡ file)
        ⊎ ((local_prefix : String) × HasPrefix file local_prefix
            × ((other : List RawEdge)
                → rewritten (record file { edges = other })
                  ≡ record file { edges = map (rewrite_edge resolve local_prefix) other }))
  unfolding rewrite_cross_workspace_edges
  rewritten-cases file = elim (Option-cases file.module_lookup) [
    | inl missing ↦ inl (simp (rewrite_cross_workspace_edges, missing))
    | inr (lookup, found) ↦ elim (Bool-cases (language_supports_workspace_prefix lookup.language)) [
      | inr other ↦ inl (simp (rewrite_cross_workspace_edges, found, other))
      | inl supported ↦
          let (first, rest, cut) = segments-cases lookup.module_fqdn in
          elim (Bool-cases (first == "")) [
            | inl empty ↦ inl (simp (rewrite_cross_workspace_edges, found, supported, cut, empty))
            | inr named ↦ inr (
              first,
              (lookup, rest, found, supported, cut),
              λ other. simp (rewrite_cross_workspace_edges, found, supported, cut, named),
            )
          ]
    ]
  ]

  -- The pass changes nothing of a file but its edges, and those one by one. An edge stays as it is
  -- or, in a file with a workspace prefix, its target is a name outside of the workspace that the
  -- chain of the resolver answers: with a hit it is resolved to that name, with a peer that misses the
  -- symbol it becomes a bridge of the name. Such an edge is stamped with the peer, and its confidence
  -- is the default one of its new target.
  pub rewrite_cross_workspace_edges-Pairwise :
      (file : ExtractedFile)
      → (rewritten file ≡ record file { edges = (rewritten file).edges })
        × Pairwise
            (λ e e'.
              (e' ≡ e)
              ⊎ ((local_prefix : String) × HasPrefix file local_prefix
                  × IsRewritten resolve local_prefix e e'))
            file.edges
            (rewritten file).edges
  rewrite_cross_workspace_edges-Pairwise file = elim (rewritten-cases file) [
    | inl same ↦ (
      same ∙ ap (λ (x : ExtractedFile). record file { edges = x.edges }) (inverse same),
      subst (Pairwise _ file.edges)
          (map_id file.edges ∙ ap (λ (x : ExtractedFile). x.edges) (inverse same))
          (Pairwise-map _ (λ e. e) file.edges (λ e. inl refl)),
    )
    | inr (local_prefix, prefixed, all) ↦
        let same = all file.edges in
        (
          same ∙ ap (λ (x : ExtractedFile). record file { edges = x.edges }) (inverse same),
          subst (Pairwise _ file.edges) (ap (λ (x : ExtractedFile). x.edges) (inverse same)) (
              Pairwise-map _ (rewrite_edge resolve local_prefix) file.edges (λ e.
                inr (local_prefix, prefixed, rewrite_edge-IsRewritten resolve local_prefix e))),
        )
  ]

  -- A second pass changes nothing, if what a hit gives is a name that the resolver gives again or
  -- does not know.
  pub rewrite_cross_workspace_edges_idem :
      (file : ExtractedFile)
      → ((local_prefix : String) → IsCanonical resolve local_prefix)
      → rewritten (rewritten file) ≡ rewritten file
  rewrite_cross_workspace_edges_idem file canonical = elim (rewritten-cases file) [
    | inl same ↦ ap rewritten same
    | inr (local_prefix, prefixed, all) ↦
        let once = map (rewrite_edge resolve local_prefix) file.edges in
        ap rewritten (all file.edges)
        ∙ all once
        ∙ ap (λ es. record file { edges = es })
            (map_idem (rewrite_edge resolve local_prefix) file.edges
              (λ e. rewrite_edge_idem resolve local_prefix e (canonical local_prefix)))
        ∙ inverse (all file.edges)
  ]
