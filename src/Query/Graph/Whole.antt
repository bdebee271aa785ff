-- ===== src/Query/Graph/Whole.antt =====
-- What a graph that the viewer is sent has for its edges.
use standardoc.Base.{
  String, ℕ, zero, suc, ◌-◌, ◌≡◌, refl, sym as inverse, subst, ◌⊎◌, inl, inr, Bool, true, false,
  ◌&&◌, ◌||◌, not, Option, none, some, List, [], ◌∷◌, ◌++◌, min, length, ltb, eqb, In,
  In-append_cases, keep_if, keep_if_sound, ◌==◌, Bool-cases, Option-cases,
}
use standardoc.Base.Sort.{In-sort_by}
use standardoc.Ir.Kinds.{EdgeKind}
use standardoc.Ir.Edge.{RawEdge}
use standardoc.Storage.Error.{Result, ok, ok_of_bind, ok-injective}
use standardoc.Storage.Database.{Database, SymbolRow}
use standardoc.Storage.Index.{In-map}
use standardoc.Pipeline.Writer.{primary_workspace_id}
use standardoc.Query.Rows.{edges_from}
use standardoc.Query.Graph.{
  GraphEdge, GraphSymbol, GraphProject, GraphRequest, GraphResponse, is_listed, fqdn_leb,
  load_graph_symbols, take, list_fqdns_page, list_pages, list_bounded_fqdns, bounded_list_page,
  last_of, has_text, ships, compose_focal, compose_bounded, fetch_graph, collect_out, collect_all,
  symbol_exists, rounds, kind_allowed, resolved_fqdn,
}
use standardoc.Query.Graph.Edges.{
  NoRepeat, NoRepeat-keep_if, IsRead, push_edge-NoRepeat, push_edge-cases, has_text_iff,
  has_text-of,
}
use standardoc.Query.Graph.Loaded.{names, load_graph_symbols_complete, IsWhole}
use standardoc.Query.Graph.Stored.{IsRead-IsStored}
use standardoc.Query.Graph.Rounds.{search-IsSearch}

pub and_split : (a b : Bool) → (a && b) ≡ true → (a ≡ true) × (b ≡ true)
and_split true b h = (refl, h)
and_split false b h = absurd (cc)

and_both : (a b : Bool) → a ≡ true → b ≡ true → (a && b) ≡ true
and_both a b h k = simp (h, k)

In-take : {A : Type 0} (a : A) (n : ℕ) (xs : List A) → In a (take n xs) → In a xs
In-take a n [] h = h
In-take a zero (x ∷ xs) h = absurd h
In-take a (suc n) (x ∷ xs) (inl e) = inl e
In-take a (suc n) (x ∷ xs) (inr h) = inr (In-take a n xs h)

-- The row of a listed name.
abbrev IsListed : Database → Bool → String → Type 0
IsListed db include_external t =
    (s : SymbolRow) × In s db.symbols
    × (t ≡ s.fqdn)
    × (s.workspace_id == primary_workspace_id ≡ true)
    × ((include_external || not s.is_external) ≡ true)

list_fqdns_page-IsListed :
    (db : Database) (limit : ℕ) (include_external : Bool) (cursor : Option String) (t : String)
    → In t (list_fqdns_page db limit include_external cursor)
    → IsListed db include_external t
unfolding list_fqdns_page
list_fqdns_page-IsListed db limit include_external cursor t h =
    let p = is_listed include_external cursor in
    let (s, sorted, e) = In-map (λ (s : SymbolRow). s.fqdn) t _ (In-take t limit _ h) in
    let (held, tested) =
      keep_if_sound p db.symbols s (In-sort_by fqdn_leb s (keep_if p db.symbols) sorted) in
    let (primary, rest) = and_split (s.workspace_id == primary_workspace_id) _ tested in
    (s, held, e, primary, (and_split (include_external || not s.is_external) _ rest).0)

page_cases :
    (xs : List String) → (xs ≡ []) ⊎ ((x : String) × (rest : List String) × (xs ≡ x ∷ rest))
page_cases [] = inl refl
page_cases (x ∷ rest) = inr (x, rest, refl)

list_pages-IsListed :
    (db : Database) (max_nodes : ℕ) (include_external : Bool) (fuel : ℕ) (cursor : Option String)
    (out : List String)
    → ((t : String) → In t out → IsListed db include_external t)
    → (t : String) → In t (list_pages db max_nodes include_external fuel cursor out)
    → IsListed db include_external t
unfolding list_pages
list_pages-IsListed db max_nodes include_external zero cursor out h = h
list_pages-IsListed db max_nodes include_external (suc fuel) cursor out h =
    elim (Bool-cases (ltb (length out) max_nodes)) [
      | inr full ↦ rw (list_pages, full) h
      | inl room ↦
          let page_size = min (max_nodes - length out) bounded_list_page in
          let more : (page : List String)
              → list_fqdns_page db page_size include_external cursor ≡ page
              → (t : String) → In t (out ++ page)
              → IsListed db include_external t =
            λ page e t there. elim (In-append_cases t out page there) [
              | inl old ↦ h t old
              | inr new ↦
                  list_fqdns_page-IsListed db page_size include_external cursor t
                    (subst (In t) (inverse e) new)
            ] in
          elim (page_cases (list_fqdns_page db page_size include_external cursor)) [
            | inl empty ↦ rw (list_pages, room, empty) h
            | inr (first, rest, e) ↦ elim (Bool-cases (eqb (length (first ∷ rest)) page_size)) [
              | inr short ↦ rw (list_pages, room, e, short) (more (first ∷ rest) e)
              | inl whole ↦
                  rw (list_pages, room, e, whole)
                    (list_pages-IsListed db max_nodes include_external fuel
                      (some (last_of first rest)) (out ++ first ∷ rest) (more (first ∷ rest) e))
            ]
          ]
    ]

-- Every node of the bounded mode is loaded.
listed-loaded :
    (db : Database) (max_nodes : ℕ) (include_external : Bool) (gs : List GraphSymbol) (t : String)
    → load_graph_symbols db (list_bounded_fqdns db max_nodes include_external) include_external
      ≡ ok gs
    → In t (list_bounded_fqdns db max_nodes include_external)
    → In t (names gs)
unfolding list_bounded_fqdns
listed-loaded db max_nodes include_external gs t done there =
    let nodes = list_bounded_fqdns db max_nodes include_external in
    let (s, held, e, primary, scope) =
      list_pages-IsListed db max_nodes include_external max_nodes none [] (λ x never. absurd never)
        t there in
    let there' : In s.fqdn nodes = subst (λ x. In x nodes) e there in
    subst (λ x. In x (names gs)) (inverse e)
      (load_graph_symbols_complete db nodes include_external gs s done held there' (
        and_both (s.workspace_id == primary_workspace_id) _ primary
          (and_both (has_text nodes s.fqdn) _ (has_text-of nodes s.fqdn there') scope)))

module _ (from_str : String → Option (List String)) (db : Database) (kinds : Option (List EdgeKind))
    (nodes : List String) where
  -- What the edges of the bounded mode are while they are collected.
  record IsCollected (es : List GraphEdge) : Type 0 where
    once : NoRepeat es
    inside : (g : GraphEdge) → In g es → In g.from nodes × In g.to nodes
    stored : (g : GraphEdge) → In g es → IsRead from_str db kinds g

  collect_out-IsCollected :
      (from : String) (outs rest : List RawEdge) (es : List GraphEdge)
      → In from nodes
      → edges_from from_str db from ≡ ok outs
      → ((e : RawEdge) → In e rest → In e outs)
      → IsCollected es
      → IsCollected (collect_out kinds nodes from rest es)
  unfolding collect_out
  collect_out-IsCollected from outs [] es node read sub h = h
  collect_out-IsCollected from outs (e ∷ rest) es node read sub h =
      let later : (x : RawEdge) → In x rest → In x outs = λ x k. sub x (inr k) in
      elim (Bool-cases (kind_allowed kinds e.kind)) [
        | inr refused ↦
            rw (collect_out, refused) (collect_out-IsCollected from outs rest es node read later h)
        | inl allowed ↦ elim (Option-cases (resolved_fqdn e.to)) [
          | inl open_end ↦
              rw (collect_out, allowed, open_end)
                (collect_out-IsCollected from outs rest es node read later h)
          | inr (target, to) ↦ elim (Bool-cases (has_text nodes target)) [
            | inr outside ↦
                rw (collect_out, allowed, to, outside)
                  (collect_out-IsCollected from outs rest es node read later h)
            | inl inside ↦
                let held = has_text_iff nodes target inside in
                rw (collect_out, allowed, to, inside)
                  (collect_out-IsCollected from outs rest _ node read later (record {
                    once = push_edge-NoRepeat es from target e.kind true h.once;
                    inside = λ g k. elim (push_edge-cases es from target e.kind true g k) [
                      | inl old ↦ h.inside g old
                      | inr new ↦
                          subst (λ (x : GraphEdge). In x.from nodes × In x.to nodes) (inverse new)
                            (node, held)
                    ];
                    stored = λ g k. elim (push_edge-cases es from target e.kind true g k) [
                      | inl old ↦ h.stored g old
                      | inr new ↦
                          subst (IsRead from_str db kinds) (inverse new)
                            (allowed, inl (outs, e, read, sub e (inl refl), refl, to))
                    ];
                  }))
          ]
        ]
      ]

  collect_all-IsCollected :
      (froms : List String) (es es' : List GraphEdge)
      → ((t : String) → In t froms → In t nodes)
      → IsCollected es
      → collect_all from_str db kinds nodes froms es ≡ ok es'
      → IsCollected es'
  unfolding collect_all
  collect_all-IsCollected [] es es' sub h done = subst IsCollected (ok-injective _ _ done) h
  collect_all-IsCollected (from ∷ froms) es es' sub h done =
      let (outs, read, rest) = ok_of_bind (edges_from from_str db from) _ done in
      collect_all-IsCollected froms _ es' (λ t k. sub t (inr k))
        (collect_out-IsCollected from outs outs es (sub from (inl refl)) read (λ e k. k) h) rest

module _ (from_str : String → Option (List String)) (projects : Result (List GraphProject)) where
  compose_bounded-IsWhole :
      (db : Database) (kinds : Option (List EdgeKind)) (max_nodes : ℕ) (include_external : Bool)
      (r : GraphResponse)
      → compose_bounded from_str projects db kinds max_nodes include_external ≡ ok r
      → IsWhole db kinds r
  unfolding compose_bounded
  compose_bounded-IsWhole db kinds max_nodes include_external r done =
      let nodes = list_bounded_fqdns db max_nodes include_external in
      let (edges, collected, e₁) =
        ok_of_bind (collect_all from_str db kinds nodes nodes []) _ done in
      let (symbols, loaded, e₂) = ok_of_bind (load_graph_symbols db nodes include_external) _ e₁ in
      let (listed, _, e₃) = ok_of_bind projects _ e₂ in
      let h =
        collect_all-IsCollected from_str db kinds nodes nodes [] edges (λ t k. k)
          (record { once = tt; inside = λ g k. absurd k; stored = λ g k. absurd k }) collected in
      subst (IsWhole db kinds) (ok-injective _ _ e₃) (record {
        ends = λ g k. (
          listed-loaded db max_nodes include_external symbols g.from loaded (h.inside g k).0,
          listed-loaded db max_nodes include_external symbols g.to loaded (h.inside g k).1,
        );
        once = h.once;
        stored = λ g k. IsRead-IsStored from_str db kinds g (h.stored g k);
      })

  compose_focal-IsWhole :
      (db : Database) (focal : String) (depth : ℕ) (kinds : Option (List EdgeKind)) (max_nodes : ℕ)
      (include_external : Bool) (r : GraphResponse)
      → compose_focal from_str projects db focal depth kinds max_nodes include_external ≡ ok r
      → IsWhole db kinds r
  unfolding compose_focal
  compose_focal-IsWhole db focal depth kinds max_nodes include_external r done =
      elim (Bool-cases (symbol_exists db focal)) [
        | inr unknown ↦
            subst (IsWhole db kinds) (ok-injective _ _ (rw (compose_focal, unknown) at done))
              (record { ends = λ g k. absurd k; once = tt; stored = λ g k. absurd k })
        | inl known ↦
            let (found, searched, e₁) =
              ok_of_bind
                (rounds from_str db kinds max_nodes depth (focal ∷ [])
                  (record { visited = focal ∷ []; next_frontier = []; edges = [] }))
                _ (rw (compose_focal, known) at done) in
            let (symbols, loaded, e₂) =
              ok_of_bind (load_graph_symbols db found.visited include_external) _ e₁ in
            let (listed, _, e₃) = ok_of_bind projects _ e₂ in
            let h = search-IsSearch from_str db kinds max_nodes focal depth found searched in
            let p : GraphEdge → Bool = λ e. ships symbols e.from && ships symbols e.to in
            subst (IsWhole db kinds) (ok-injective _ _ e₃) (record {
              ends = λ g k.
                  let (from, to) =
                    and_split (ships symbols g.from) _ (keep_if_sound p found.edges g k).1 in
                  (has_text_iff (names symbols) g.from from, has_text_iff (names symbols) g.to to);
              once = NoRepeat-keep_if p found.edges h.once;
              stored = λ g k.
                  IsRead-IsStored from_str db kinds g
                    (h.stored g (keep_if_sound p found.edges g k).0);
            })
      ]

  -- Whatever the request, a graph that is returned is whole: both ends of every edge are names of
  -- symbols that are sent with it, no two edges have the same ends and kind, and every edge is a row of
  -- `edges` of an allowed kind from a symbol named as its source to a symbol named as its target, save
  -- that a row behind an inbound edge may have that name as its unresolved target.
  pub fetch_graph-IsWhole :
      (db : Database) (req : GraphRequest) (r : GraphResponse)
      → fetch_graph from_str projects db req ≡ ok r
      → IsWhole db req.kinds r
  unfolding fetch_graph
  fetch_graph-IsWhole db req r done = elim (Option-cases req.focal) [
    | inl bounded ↦
        compose_bounded-IsWhole db req.kinds req.max_nodes req.include_external r
          (rw (fetch_graph, bounded) at done)
    | inr (focal, named) ↦
        compose_focal-IsWhole db focal req.depth req.kinds req.max_nodes req.include_external r
          (rw (fetch_graph, named) at done)
  ]
