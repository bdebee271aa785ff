-- ===== src/Query/Graph/Rounds.antt =====
-- The search from one symbol: what it visits is within its depth, and what it keeps is stored.
use standardoc.Base.{
  String, ℕ, zero, suc, ◌+◌, ◌≤◌, ◌≡◌, refl, sym as inverse, subst, ◌⊎◌, inl, inr, Bool, true,
  false, ◌&&◌, ◌||◌, not, Option, some, List, [], ◌∷◌, length, In, In-append_last, ltb, leb, ltb→lt,
  arith, Bool-cases, Option-cases,
}
use standardoc.Ir.Kinds.{EdgeKind}
use standardoc.Ir.Edge.{RawEdge}
use standardoc.Storage.Error.{ok, ok_of_bind, ok-injective}
use standardoc.Storage.Database.{Database}
use standardoc.Query.Rows.{edges_from, edges_to}
use standardoc.Query.Graph.{
  GraphEdge, Search, kind_allowed, resolved_fqdn, push_edge, has_text, enqueue, follow_out,
  follow_in, follow_outs, follow_ins, expand_node, expand_all, rounds, is_empty,
}
use standardoc.Query.Graph.Edges.{NoRepeat, IsRead, push_edge-NoRepeat, push_edge-cases}

module _ (from_str : String → Option (List String)) (db : Database) (kinds : Option (List EdgeKind))
    (max_nodes : ℕ) (focal : String) where
  -- Names that are at most so many allowed edges away, each followed in either direction.
  pub data Within : ℕ → String → Type 0 where
    start : {n : ℕ} → Within n focal
    outward :
        {n : ℕ} {a b : String} (es : List RawEdge) (e : RawEdge)
        → Within n a
        → edges_from from_str db a ≡ ok es
        → In e es
        → kind_allowed kinds e.kind ≡ true
        → resolved_fqdn e.to ≡ some b
        → Within (suc n) b
    inward :
        {n : ℕ} {a : String} (es : List RawEdge) (e : RawEdge)
        → Within n a
        → edges_to from_str db a ≡ ok es
        → In e es
        → kind_allowed kinds e.kind ≡ true
        → Within (suc n) e.from_fqdn

  Within-suc : {n : ℕ} {t : String} → Within n t → Within (suc n) t
  Within-suc start = start
  Within-suc (outward es e h read held allowed to) =
      outward es e (Within-suc h) read held allowed to
  Within-suc (inward es e h read held allowed) = inward es e (Within-suc h) read held allowed

  -- While the nodes at distance `n` are expanded.
  pub record IsSearch (n : ℕ) (s : Search) : Type 0 where
    pub reached : (t : String) → In t s.visited → Within n t
    pub queued : (t : String) → In t s.next_frontier → Within n t
    pub few : (length s.visited ≤ 1) ⊎ (length s.visited ≤ max_nodes)
    pub stored : (g : GraphEdge) → In g s.edges → IsRead from_str db kinds g
    pub once : NoRepeat s.edges

  enqueue-IsSearch :
      (n : ℕ) (target : String) (s : Search)
      → Within n target
      → IsSearch n s
      → IsSearch n (enqueue max_nodes target s)
  unfolding enqueue
  enqueue-IsSearch n target s near h =
      elim (Bool-cases (ltb (length s.visited) max_nodes && not (has_text s.visited target))) [
        | inr refused ↦ simp (enqueue, refused) h
        | inl admitted ↦
            simp (enqueue, admitted)
              (record {
                reached = λ t held. elim held [
                  | inl e ↦ subst (Within n) (inverse e) near
                  | inr old ↦ h.reached t old
                ];
                queued = λ t held. elim (In-append_last t s.next_frontier target held) [
                  | inl old ↦ h.queued t old
                  | inr e ↦ subst (Within n) (inverse e) near
                ];
                few = inr (ground (arith, ltb→lt (length s.visited) max_nodes));
                stored = h.stored;
                once = h.once;
              })
      ]

  pushed :
      (n : ℕ) (from to : String) (kind : EdgeKind) (outbound : Bool) (s : Search)
      → IsRead from_str db kinds (record { from = from; to = to; kind = kind; outbound = outbound })
      → IsSearch n s
      → IsSearch n (record s { edges = push_edge s.edges from to kind outbound })
  pushed n from to kind outbound s new h = record {
    reached = h.reached;
    queued = h.queued;
    few = h.few;
    stored = λ g held. elim (push_edge-cases s.edges from to kind outbound g held) [
      | inl old ↦ h.stored g old
      | inr e ↦ subst (IsRead from_str db kinds) (inverse e) new
    ];
    once = push_edge-NoRepeat s.edges from to kind outbound h.once;
  }

  module _ (n : ℕ) (node : String) (near : Within n node) where
    follow_out-IsSearch :
        (es : List RawEdge) (e : RawEdge) (s : Search)
        → edges_from from_str db node ≡ ok es
        → In e es
        → IsSearch (suc n) s
        → IsSearch (suc n) (follow_out kinds max_nodes node e s)
    unfolding follow_out
    follow_out-IsSearch es e s read held h = elim (Bool-cases (kind_allowed kinds e.kind)) [
      | inr refused ↦ rw (follow_out, refused) h
      | inl allowed ↦ elim (Option-cases (resolved_fqdn e.to)) [
        | inl unresolved ↦ rw (follow_out, allowed, unresolved) h
        | inr (target, to) ↦
            rw (follow_out, allowed, to)
              (enqueue-IsSearch (suc n) target _ (outward es e near read held allowed to) (
                pushed (suc n) node target e.kind true s
                  (allowed, inl (es, e, read, held, refl, to)) h))
      ]
    ]

    follow_in-IsSearch :
        (es : List RawEdge) (e : RawEdge) (s : Search)
        → edges_to from_str db node ≡ ok es
        → In e es
        → IsSearch (suc n) s
        → IsSearch (suc n) (follow_in kinds max_nodes node e s)
    unfolding follow_in
    follow_in-IsSearch es e s read held h = elim (Bool-cases (kind_allowed kinds e.kind)) [
      | inr refused ↦ rw (follow_in, refused) h
      | inl allowed ↦
          rw (follow_in, allowed)
            (enqueue-IsSearch (suc n) e.from_fqdn _ (inward es e near read held allowed) (
              pushed (suc n) e.from_fqdn node e.kind false s
                (allowed, inr (es, e, read, held, refl, refl, refl)) h))
    ]

    follow_outs-IsSearch :
        (es rest : List RawEdge) (s : Search)
        → edges_from from_str db node ≡ ok es
        → ((e : RawEdge) → In e rest → In e es)
        → IsSearch (suc n) s
        → IsSearch (suc n) (follow_outs kinds max_nodes node rest s)
    unfolding follow_outs
    follow_outs-IsSearch es [] s read sub h = h
    follow_outs-IsSearch es (e ∷ rest) s read sub h =
        follow_outs-IsSearch es rest (follow_out kinds max_nodes node e s) read
          (λ x held. sub x (inr held)) (follow_out-IsSearch es e s read (sub e (inl refl)) h)

    follow_ins-IsSearch :
        (es rest : List RawEdge) (s : Search)
        → edges_to from_str db node ≡ ok es
        → ((e : RawEdge) → In e rest → In e es)
        → IsSearch (suc n) s
        → IsSearch (suc n) (follow_ins kinds max_nodes node rest s)
    unfolding follow_ins
    follow_ins-IsSearch es [] s read sub h = h
    follow_ins-IsSearch es (e ∷ rest) s read sub h =
        follow_ins-IsSearch es rest (follow_in kinds max_nodes node e s) read
          (λ x held. sub x (inr held)) (follow_in-IsSearch es e s read (sub e (inl refl)) h)

    expand_node-IsSearch :
        (s s' : Search)
        → IsSearch (suc n) s
        → expand_node from_str db kinds max_nodes node s ≡ ok s'
        → IsSearch (suc n) s'
    unfolding expand_node
    expand_node-IsSearch s s' h done =
        let (outs, read, rest) = ok_of_bind (edges_from from_str db node) _ done in
        let (ins, read', last) = ok_of_bind (edges_to from_str db node) _ rest in
        subst (IsSearch (suc n)) (ok-injective _ _ last) (
          follow_ins-IsSearch ins ins _ read' (λ e held. held)
            (follow_outs-IsSearch outs outs s read (λ e held. held) h))

  IsSearch-later : (n : ℕ) (s : Search) → IsSearch n s → IsSearch (suc n) s
  IsSearch-later n s h = record {
    reached = λ t held. Within-suc (h.reached t held);
    queued = λ t held. Within-suc (h.queued t held);
    few = h.few;
    stored = h.stored;
    once = h.once;
  }

  expand_all-IsSearch :
      (n : ℕ) (frontier : List String) (s s' : Search)
      → ((t : String) → In t frontier → Within n t)
      → IsSearch (suc n) s
      → expand_all from_str db kinds max_nodes frontier s ≡ ok s'
      → IsSearch (suc n) s'
  unfolding expand_all
  expand_all-IsSearch n [] s s' near h done = subst (IsSearch (suc n)) (ok-injective _ _ done) h
  expand_all-IsSearch n (node ∷ frontier) s s' near h done =
      let (middle, first, rest) =
        ok_of_bind (expand_node from_str db kinds max_nodes node s) _ done in
      expand_all-IsSearch n frontier middle s' (λ t held. near t (inr held))
        (expand_node-IsSearch n node (near node (inl refl)) s middle h first) rest

  many : (k n : ℕ) (s : Search) → IsSearch n s → IsSearch (k + n) s
  many zero n s h = subst (λ m. IsSearch m s) (omega arith) h
  many (suc k) n s h =
      subst (λ m. IsSearch m s) (omega arith) (IsSearch-later (k + n) s (many k n s h))

  at_start : (t : String) → In t (focal ∷ []) → Within 0 t
  at_start t (inl e) = subst (Within 0) (inverse e) start
  at_start t (inr never) = absurd never

  -- The rounds that are left.
  rounds-IsSearch :
      (n left : ℕ) (frontier : List String) (s s' : Search)
      → ((t : String) → In t frontier → Within n t)
      → IsSearch n s
      → rounds from_str db kinds max_nodes left frontier s ≡ ok s'
      → IsSearch (left + n) s'
  unfolding rounds
  rounds-IsSearch n zero frontier s s' near h done =
      subst (IsSearch (0 + n)) (ok-injective _ _ done) (many 0 n s h)
  rounds-IsSearch n (suc left) frontier s s' near h done =
      elim (Bool-cases (leb max_nodes (length s.visited) || is_empty frontier)) [
        | inl stops ↦
            subst (IsSearch (suc left + n)) (ok-injective _ _ (rw (rounds, stops) at done))
              (many (suc left) n s h)
        | inr goes ↦
            let (middle, first, rest) =
              ok_of_bind
                (expand_all from_str db kinds max_nodes frontier (record s { next_frontier = [] }))
                _ (rw (rounds, goes) at done) in
            let fresh : IsSearch (suc n) (record s { next_frontier = [] }) = record {
              reached = λ t held. Within-suc (h.reached t held);
              queued = λ t never. absurd never;
              few = h.few;
              stored = h.stored;
              once = h.once;
            } in
            let h' = expand_all-IsSearch n frontier _ middle near fresh first in
            subst (λ k. IsSearch k s') (omega arith)
              (rounds-IsSearch (suc n) left middle.next_frontier middle s' h'.queued h' rest)
      ]

  pub search-IsSearch :
      (depth : ℕ) (s : Search)
      → rounds from_str db kinds max_nodes depth
          (focal ∷ [])
          (record { visited = focal ∷ []; next_frontier = []; edges = [] })
        ≡ ok s
      → IsSearch depth s
  search-IsSearch depth s done =
      subst (λ k. IsSearch k s) (omega arith)
        (rounds-IsSearch 0 depth (focal ∷ []) _ s (λ t held. at_start t held)
          (record {
            reached = at_start;
            queued = λ t never. absurd never;
            few = inl (omega arith);
            stored = λ g never. absurd never;
            once = tt;
          })
          done)
