-- ===== src/Pipeline/CrossWorkspace/Rewrite.antt =====
-- What the rewriting of an edge changes, and when a second time changes nothing.
use standardoc.Base.{
  String, ◌≡◌, refl, sym as inverse, ap, subst, ◌∙◌, ◌⊎◌, inl, inr, true, false, Option, none, some,
  List, [], ◌∷◌, ◌++◌, ◌==◌, eq_refl, Bool-cases, Option-cases,
}
use standardoc.Base.Text.{append}
use standardoc.Ir.Edge.{RawEdge, ResolvedOrUnresolved, default_confidence}
use standardoc.Ir.CrossWorkspace.{CrossWorkspaceLookup, bridge_slug}
use standardoc.Pipeline.CrossWorkspace.{
  is_local, has_attr, push_missing, stamp_attrs, resolve_with_suffix_chain, apply_outcome,
  rewrite_candidate, rewrite_target, rewrite_edge,
}

has_attr-append :
    (attrs : List String) (a b : String)
    → has_attr attrs a ≡ true
    → has_attr (attrs ++ b ∷ []) a ≡ true
has_attr-append [] a b h = absurd (cc)
has_attr-append (x ∷ attrs) a b h = elim (Bool-cases (x == a)) [
  | inl hit ↦ rw hit refl
  | inr miss ↦ rw miss (has_attr-append attrs a b (rw miss at h))
]

has_attr-last : (attrs : List String) (a : String) → has_attr (attrs ++ a ∷ []) a ≡ true
has_attr-last [] a = rw (eq_refl a) refl
has_attr-last (x ∷ attrs) a = elim (Bool-cases (x == a)) [
  | inl hit ↦ rw hit refl
  | inr miss ↦ rw miss (has_attr-last attrs a)
]

push_missing-has : (attrs : List String) (a : String) → has_attr (push_missing attrs a) a ≡ true
push_missing-has attrs a = elim (Bool-cases (has_attr attrs a)) [
  | inl known ↦ rw known known
  | inr new ↦ rw new (has_attr-last attrs a)
]

push_missing-keeps :
    (attrs : List String) (a b : String)
    → has_attr attrs a ≡ true
    → has_attr (push_missing attrs b) a ≡ true
push_missing-keeps attrs a b h = elim (Bool-cases (has_attr attrs b)) [
  | inl known ↦ rw known h
  | inr new ↦ rw new (has_attr-append attrs a b h)
]

push_missing-known :
    (attrs : List String) (a : String) → has_attr attrs a ≡ true → push_missing attrs a ≡ attrs
push_missing-known attrs a h = rw h refl

abbrev peer_attr : String → String
peer_attr workspace_id = append "peer-" workspace_id

-- Both attributes are there after a stamp, and a second stamp adds nothing.
stamp_attrs-has :
    (attrs : List String) (workspace_id : String)
    → (has_attr (stamp_attrs attrs workspace_id) "cross-workspace" ≡ true)
      × (has_attr (stamp_attrs attrs workspace_id) (peer_attr workspace_id) ≡ true)
unfolding stamp_attrs
stamp_attrs-has attrs workspace_id =
    let first = push_missing attrs "cross-workspace" in
    (
      push_missing-keeps first "cross-workspace" (peer_attr workspace_id)
          (push_missing-has attrs "cross-workspace"),
      push_missing-has first (peer_attr workspace_id),
    )

stamp_attrs_idem :
    (attrs : List String) (workspace_id : String)
    → stamp_attrs (stamp_attrs attrs workspace_id) workspace_id ≡ stamp_attrs attrs workspace_id
unfolding stamp_attrs
stamp_attrs_idem attrs workspace_id =
    let stamped = stamp_attrs attrs workspace_id in
    let (first, second) = stamp_attrs-has attrs workspace_id in
    ap (λ xs. push_missing xs (peer_attr workspace_id))
      (push_missing-known stamped "cross-workspace" first)
    ∙ push_missing-known stamped (peer_attr workspace_id) second

-- The name that the resolver is asked about.
abbrev pub candidate_of : ResolvedOrUnresolved → Option String
candidate_of (ResolvedOrUnresolved.resolved fqdn) = some fqdn
candidate_of (ResolvedOrUnresolved.unresolved name) = some name
candidate_of (ResolvedOrUnresolved.unresolved_bridge _ _) = none

module _ (resolve : String → String → CrossWorkspaceLookup) (local_prefix : String) where
  abbrev chain : String → Option CrossWorkspaceLookup
  chain = resolve_with_suffix_chain resolve

  abbrev rewritten_to : RawEdge → ResolvedOrUnresolved → String → RawEdge
  rewritten_to e to workspace_id = record e {
    to = to;
    attributes = stamp_attrs e.attributes workspace_id;
    confidence = default_confidence to;
  }

  -- The ways an edge is rewritten.
  abbrev pub IsRewritten : RawEdge → RawEdge → Type 0
  IsRewritten e e' =
      (e' ≡ e)
      ⊎ ((candidate workspace_id : String) × (candidate_of e.to ≡ some candidate)
          × (is_local candidate local_prefix ≡ false)
          × (((fqdn : String) × (resolve_with_suffix_chain resolve candidate
                  ≡ some (CrossWorkspaceLookup.hit workspace_id fqdn))
                × (e' ≡ rewritten_to e (ResolvedOrUnresolved.resolved fqdn) workspace_id))
              ⊎ ((resolve_with_suffix_chain resolve candidate
                    ≡ some (CrossWorkspaceLookup.known_peer_missing_symbol workspace_id))
                  × (e'
                      ≡ rewritten_to e
                          (ResolvedOrUnresolved.unresolved_bridge bridge_slug candidate)
                          workspace_id))))

  rewrite_candidate-IsRewritten :
      (e : RawEdge) (candidate : String)
      → candidate_of e.to ≡ some candidate
      → IsRewritten e (rewrite_candidate resolve local_prefix e candidate)
  unfolding rewrite_candidate apply_outcome
  rewrite_candidate-IsRewritten e candidate named =
      elim (Bool-cases (is_local candidate local_prefix)) [
        | inl here ↦ rw (rewrite_candidate, here) (inl refl)
        | inr elsewhere ↦ elim (Option-cases (chain candidate)) [
          | inl nothing ↦ rw (rewrite_candidate, elsewhere, nothing) (inl refl)
          | inr (outcome, found) ↦
              rw (rewrite_candidate, elsewhere, found) (answer outcome found elsewhere)
        ]
      ]
    where
      answer :
          (outcome : CrossWorkspaceLookup)
          → chain candidate ≡ some outcome
          → is_local candidate local_prefix ≡ false
          → IsRewritten e (apply_outcome e candidate outcome)
      answer (CrossWorkspaceLookup.hit w f) found elsewhere =
          inr (candidate, w, named, elsewhere, inl (f, found, refl))
      answer (CrossWorkspaceLookup.known_peer_missing_symbol w) found elsewhere =
          inr (candidate, w, named, elsewhere, inr (found, refl))
      answer CrossWorkspaceLookup.unknown found elsewhere = inl refl

  rewrite_target-candidate :
      (e : RawEdge) (t : ResolvedOrUnresolved) (candidate : String)
      → candidate_of t ≡ some candidate
      → rewrite_target resolve local_prefix e t ≡ rewrite_candidate resolve local_prefix e candidate
  unfolding rewrite_target
  rewrite_target-candidate e (ResolvedOrUnresolved.resolved fqdn) candidate named =
      let same : fqdn ≡ candidate = cc named in ap (rewrite_candidate resolve local_prefix e) same
  rewrite_target-candidate e (ResolvedOrUnresolved.unresolved name) candidate named =
      let same : name ≡ candidate = cc named in ap (rewrite_candidate resolve local_prefix e) same
  rewrite_target-candidate e (ResolvedOrUnresolved.unresolved_bridge bridge name) candidate named =
      absurd (cc named)

  rewrite_edge-candidate :
      (e : RawEdge) (candidate : String)
      → candidate_of e.to ≡ some candidate
      → rewrite_edge resolve local_prefix e ≡ rewrite_candidate resolve local_prefix e candidate
  unfolding rewrite_edge
  rewrite_edge-candidate e = rewrite_target-candidate e e.to

  rewrite_target-bridge :
      (e : RawEdge) (t : ResolvedOrUnresolved)
      → candidate_of t ≡ none
      → rewrite_target resolve local_prefix e t ≡ e
  unfolding rewrite_target
  rewrite_target-bridge e (ResolvedOrUnresolved.resolved fqdn) unnamed = absurd (cc unnamed)
  rewrite_target-bridge e (ResolvedOrUnresolved.unresolved name) unnamed = absurd (cc unnamed)
  rewrite_target-bridge e (ResolvedOrUnresolved.unresolved_bridge bridge name) unnamed = refl

  rewrite_edge-bridge :
      (e : RawEdge) → candidate_of e.to ≡ none → rewrite_edge resolve local_prefix e ≡ e
  unfolding rewrite_edge
  rewrite_edge-bridge e = rewrite_target-bridge e e.to

  pub rewrite_edge-IsRewritten : (e : RawEdge) → IsRewritten e (rewrite_edge resolve local_prefix e)
  rewrite_edge-IsRewritten e = elim (Option-cases (candidate_of e.to)) [
    | inl unnamed ↦ inl (rewrite_edge-bridge e unnamed)
    | inr (candidate, named) ↦
        subst (IsRewritten e) (inverse (rewrite_edge-candidate e candidate named))
          (rewrite_candidate-IsRewritten e candidate named)
  ]

  -- What a hit gives is a name that the resolver gives again, or does not know.
  abbrev pub IsCanonical : Type 0
  IsCanonical =
      (candidate workspace_id fqdn : String)
      → resolve_with_suffix_chain resolve candidate
        ≡ some (CrossWorkspaceLookup.hit workspace_id fqdn)
      → (resolve_with_suffix_chain resolve fqdn ≡ none)
        ⊎ (resolve_with_suffix_chain resolve fqdn
            ≡ some (CrossWorkspaceLookup.hit workspace_id fqdn))

  pub rewrite_edge_idem :
      (e : RawEdge)
      → IsCanonical
      → rewrite_edge resolve local_prefix (rewrite_edge resolve local_prefix e)
        ≡ rewrite_edge resolve local_prefix e
  unfolding rewrite_candidate apply_outcome
  rewrite_edge_idem e canonical = elim (rewrite_edge-IsRewritten e) [
    | inl kept ↦ ap (rewrite_edge resolve local_prefix) kept
    | inr (candidate, w, named, elsewhere, how) ↦ elim how [
      | inr (found, same) ↦
          let new =
            rewritten_to e (ResolvedOrUnresolved.unresolved_bridge bridge_slug candidate) w in
          ap (rewrite_edge resolve local_prefix) same ∙ rewrite_edge-bridge new refl ∙ inverse same
      | inl (fqdn, found, same) ↦
          let new = rewritten_to e (ResolvedOrUnresolved.resolved fqdn) w in
          let again : rewrite_candidate resolve local_prefix new fqdn ≡ new =
            elim (Bool-cases (is_local fqdn local_prefix)) [
              | inl here ↦ rw (rewrite_candidate, here) refl
              | inr outside ↦ elim (canonical candidate w fqdn found) [
                | inl nothing ↦ rw (rewrite_candidate, outside, nothing) refl
                | inr hit ↦
                    rw (rewrite_candidate, outside, hit)
                      (ap (λ xs. record new { attributes = xs }) (stamp_attrs_idem e.attributes w))
              ]
            ] in
          ap (rewrite_edge resolve local_prefix) same
          ∙ rewrite_edge-candidate new fqdn refl
          ∙ again
          ∙ inverse same
    ]
  ]
