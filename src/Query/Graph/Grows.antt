-- ===== src/Query/Graph/Grows.antt =====
-- The search only grows, and visits every neighbour while there is room.
use standardoc.Base.{
  String, ℕ, ◌≤◌, ◌<◌, ◌≡◌, refl, sym as inverse, subst, ◌∙◌, ◌⊎◌, inl, inr, true, ◌&&◌, not,
  Option, some, List, [], ◌∷◌, length, In, In-append_left, In-append_right, ltb, lt→ltb, arith,
  Bool-cases, Option-cases,
}
use standardoc.Ir.Kinds.{EdgeKind}
use standardoc.Ir.Edge.{RawEdge}
use standardoc.Storage.Error.{ok, ok_of_bind, ok-injective}
use standardoc.Storage.Database.{Database}
use standardoc.Query.Rows.{edges_from, edges_to}
use standardoc.Query.Graph.{
  GraphEdge, Search, kind_allowed, resolved_fqdn, has_text, enqueue, follow_out, follow_in,
  follow_outs, follow_ins, expand_node, expand_all,
}
use standardoc.Query.Graph.Edges.{has_text_iff}

pub record Grows (s s' : Search) : Type 0 where
  pub kept : (t : String) → In t s.visited → In t s'.visited
  pub longer : length s.visited ≤ length s'.visited
  pub fresh : (t : String) → In t s'.visited → In t s.visited ⊎ In t s'.next_frontier
  pub queued : (t : String) → In t s.next_frontier → In t s'.next_frontier

pub Grows-refl : (s : Search) → Grows s s
Grows-refl s = record {
  kept = λ t h. h;
  longer = omega arith;
  fresh = λ t h. inl h;
  queued = λ t h. h;
}

pub Grows-trans : (a b c : Search) → Grows a b → Grows b c → Grows a c
Grows-trans a b c h k = record {
  kept = λ t held. k.kept t (h.kept t held);
  longer = omega (arith, h.longer, k.longer);
  fresh = λ t held. elim (k.fresh t held) [
    | inr queued ↦ inr queued
    | inl earlier ↦ elim (h.fresh t earlier) [
      | inl old ↦ inl old
      | inr queued ↦ inr (k.queued t queued)
    ]
  ];
  queued = λ t held. k.queued t (h.queued t held);
}

module _ (kinds : Option (List EdgeKind)) (max_nodes : ℕ) where
  -- The edges of a search do not matter here.
  enqueue-Grows :
      (target : String) (s : Search) (edges : List GraphEdge)
      → Grows s (enqueue max_nodes target (record s { edges = edges }))
  unfolding enqueue
  enqueue-Grows target s edges =
      elim (Bool-cases (ltb (length s.visited) max_nodes && not (has_text s.visited target))) [
        | inr refused ↦
            simp (enqueue, refused)
              (record {
                kept = λ t h. h;
                longer = omega arith;
                fresh = λ t h. inl h;
                queued = λ t h. h;
              })
        | inl admitted ↦
            simp (enqueue, admitted)
              (record {
                kept = λ t h. inr h;
                longer = omega arith;
                fresh = λ t h. elim h [
                  | inr old ↦ inl old
                  | inl e ↦ inr (In-append_right t s.next_frontier (target ∷ []) (inl e))
                ];
                queued = λ t h. In-append_left t s.next_frontier (target ∷ []) h;
              })
      ]

  -- A name that is not admitted is known, or there is no room.
  enqueue-visits :
      (target : String) (s : Search)
      → length (enqueue max_nodes target s).visited < max_nodes
      → In target (enqueue max_nodes target s).visited
  unfolding enqueue
  enqueue-visits target s room = elim (Bool-cases (has_text s.visited target)) [
    | inl known ↦ elim (Bool-cases (ltb (length s.visited) max_nodes)) [
      | inl small ↦ simp (enqueue, known, small) (has_text_iff s.visited target known)
      | inr full ↦ simp (enqueue, known, full) (has_text_iff s.visited target known)
    ]
    | inr new ↦ elim (Bool-cases (ltb (length s.visited) max_nodes)) [
      | inl small ↦ simp (enqueue, new, small) (inl refl)
      | inr full ↦
          let small = lt→ltb (length s.visited) max_nodes (simp (enqueue, full) at room) in
          absurd (cc (small, full))
    ]
  ]

  module _ (node : String) where
    follow_out-Grows : (e : RawEdge) (s : Search) → Grows s (follow_out kinds max_nodes node e s)
    unfolding follow_out
    follow_out-Grows e s = elim (Bool-cases (kind_allowed kinds e.kind)) [
      | inr refused ↦ rw (follow_out, refused) (Grows-refl s)
      | inl allowed ↦ elim (Option-cases (resolved_fqdn e.to)) [
        | inl unresolved ↦ rw (follow_out, allowed, unresolved) (Grows-refl s)
        | inr (target, to) ↦ rw (follow_out, allowed, to) (enqueue-Grows target s _)
      ]
    ]

    follow_in-Grows : (e : RawEdge) (s : Search) → Grows s (follow_in kinds max_nodes node e s)
    unfolding follow_in
    follow_in-Grows e s = elim (Bool-cases (kind_allowed kinds e.kind)) [
      | inr refused ↦ rw (follow_in, refused) (Grows-refl s)
      | inl allowed ↦ rw (follow_in, allowed) (enqueue-Grows e.from_fqdn s _)
    ]

    follow_outs-Grows :
        (es : List RawEdge) (s : Search) → Grows s (follow_outs kinds max_nodes node es s)
    unfolding follow_outs
    follow_outs-Grows [] s = Grows-refl s
    follow_outs-Grows (e ∷ es) s =
        Grows-trans s _ _ (follow_out-Grows e s)
          (follow_outs-Grows es (follow_out kinds max_nodes node e s))

    follow_ins-Grows :
        (es : List RawEdge) (s : Search) → Grows s (follow_ins kinds max_nodes node es s)
    unfolding follow_ins
    follow_ins-Grows [] s = Grows-refl s
    follow_ins-Grows (e ∷ es) s =
        Grows-trans s _ _ (follow_in-Grows e s)
          (follow_ins-Grows es (follow_in kinds max_nodes node e s))

    follow_out-visits :
        (x : RawEdge) (s : Search) (b : String)
        → kind_allowed kinds x.kind ≡ true
        → resolved_fqdn x.to ≡ some b
        → length (follow_out kinds max_nodes node x s).visited < max_nodes
        → In b (follow_out kinds max_nodes node x s).visited
    unfolding follow_out
    follow_out-visits x s b allowed to small =
        rw (follow_out, allowed, to) (enqueue-visits b _ (rw (follow_out, allowed, to) at small))

    follow_in-visits :
        (x : RawEdge) (s : Search)
        → kind_allowed kinds x.kind ≡ true
        → length (follow_in kinds max_nodes node x s).visited < max_nodes
        → In x.from_fqdn (follow_in kinds max_nodes node x s).visited
    unfolding follow_in
    follow_in-visits x s allowed small =
        rw (follow_in, allowed) (enqueue-visits x.from_fqdn _ (rw (follow_in, allowed) at small))

    follow_outs-visits :
        (es : List RawEdge) (s : Search)
        → length (follow_outs kinds max_nodes node es s).visited < max_nodes
        → (e : RawEdge) (b : String) → In e es
        → kind_allowed kinds e.kind ≡ true
        → resolved_fqdn e.to ≡ some b
        → In b (follow_outs kinds max_nodes node es s).visited
    unfolding follow_outs
    follow_outs-visits [] s room e b held allowed to = absurd held
    follow_outs-visits (x ∷ es) s room e b (inr later) allowed to =
        follow_outs-visits es (follow_out kinds max_nodes node x s) room e b later allowed to
    follow_outs-visits (x ∷ es) s room e b (inl same) allowed to =
        let s₁ = follow_out kinds max_nodes node x s in
        let rest = follow_outs-Grows es s₁ in
        let small : length s₁.visited < max_nodes = omega (arith, rest.longer, room) in
        let allowed' = subst (λ (y : RawEdge). kind_allowed kinds y.kind ≡ true) same allowed in
        let to' = subst (λ (y : RawEdge). resolved_fqdn y.to ≡ some b) same to in
        rest.kept b (follow_out-visits x s b allowed' to' small)

    follow_ins-visits :
        (es : List RawEdge) (s : Search)
        → length (follow_ins kinds max_nodes node es s).visited < max_nodes
        → (e : RawEdge) → In e es
        → kind_allowed kinds e.kind ≡ true
        → In e.from_fqdn (follow_ins kinds max_nodes node es s).visited
    unfolding follow_ins
    follow_ins-visits [] s room e held allowed = absurd held
    follow_ins-visits (x ∷ es) s room e (inr later) allowed =
        follow_ins-visits es (follow_in kinds max_nodes node x s) room e later allowed
    follow_ins-visits (x ∷ es) s room e (inl same) allowed =
        let s₁ = follow_in kinds max_nodes node x s in
        let rest = follow_ins-Grows es s₁ in
        let small : length s₁.visited < max_nodes = omega (arith, rest.longer, room) in
        let allowed' = subst (λ (y : RawEdge). kind_allowed kinds y.kind ≡ true) same allowed in
        subst (λ (y : RawEdge). In y.from_fqdn (follow_ins kinds max_nodes node es s₁).visited)
          (inverse same) (rest.kept x.from_fqdn (follow_in-visits x s allowed' small))

  module _ (from_str : String → Option (List String)) (db : Database) where
    -- Every neighbour of the node is visited.
    pub record IsExpanded (visited : List String) (a : String) : Type 0 where
      pub outs :
          (es : List RawEdge) (e : RawEdge) (b : String)
          → edges_from from_str db a ≡ ok es
          → In e es
          → kind_allowed kinds e.kind ≡ true
          → resolved_fqdn e.to ≡ some b
          → In b visited
      pub ins :
          (es : List RawEdge) (e : RawEdge)
          → edges_to from_str db a ≡ ok es
          → In e es
          → kind_allowed kinds e.kind ≡ true
          → In e.from_fqdn visited

    pub IsExpanded-later :
        (s s' : Search) (a : String) → Grows s s' → IsExpanded s.visited a → IsExpanded s'.visited a
    IsExpanded-later s s' a grows h = record {
      outs = λ es e b read held allowed to. grows.kept b (h.outs es e b read held allowed to);
      ins = λ es e read held allowed. grows.kept e.from_fqdn (h.ins es e read held allowed);
    }

    expand_node-Grows :
        (node : String) (s s' : Search)
        → expand_node from_str db kinds max_nodes node s ≡ ok s'
        → Grows s s' × (length s'.visited < max_nodes → IsExpanded s'.visited node)
    unfolding expand_node
    expand_node-Grows node s s' done =
        let (outs, read, rest) = ok_of_bind (edges_from from_str db node) _ done in
        let (ins, read', last) = ok_of_bind (edges_to from_str db node) _ rest in
        let s₁ = follow_outs kinds max_nodes node outs s in
        let s₂ = follow_ins kinds max_nodes node ins s₁ in
        let later = follow_ins-Grows node ins s₁ in
        subst
          (λ (x : Search). Grows s x × (length x.visited < max_nodes → IsExpanded x.visited node))
          (ok-injective _ _ last)
          (
            Grows-trans s s₁ s₂ (follow_outs-Grows node outs s) later,
            λ room. record {
              outs = λ es e b again held allowed to. later.kept b (
                  follow_outs-visits node outs s (omega (arith, later.longer, room)) e b
                    (subst (In e) (ok-injective _ _ (inverse again ∙ read)) held) allowed to);
              ins = λ es e again held allowed.
                  follow_ins-visits node ins s₁ room e
                    (subst (In e) (ok-injective _ _ (inverse again ∙ read')) held) allowed;
            },
          )

    pub expand_all-Grows :
        (frontier : List String) (s s' : Search)
        → expand_all from_str db kinds max_nodes frontier s ≡ ok s'
        → Grows s s'
          × (length s'.visited < max_nodes → (a : String) → In a frontier → IsExpanded s'.visited a)
    unfolding expand_all
    expand_all-Grows [] s s' done =
        (subst (Grows s) (ok-injective _ _ done) (Grows-refl s), λ room a never. absurd never)
    expand_all-Grows (node ∷ frontier) s s' done =
        let (middle, first, rest) =
          ok_of_bind (expand_node from_str db kinds max_nodes node s) _ done in
        let (grows, expanded) = expand_node-Grows node s middle first in
        let (grows', expanded') = expand_all-Grows frontier middle s' rest in
        (
          Grows-trans s middle s' grows grows',
          λ room a held. elim held [
            | inr later ↦ expanded' room a later
            | inl same ↦ subst (IsExpanded s'.visited) (inverse same) (
                IsExpanded-later middle s' node grows'
                  (expanded (omega (arith, grows'.longer, room))))
          ],
        )
