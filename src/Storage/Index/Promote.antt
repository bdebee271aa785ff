-- ===== src/Storage/Index/Promote.antt =====
-- `promote_unresolved_batch` resolves every name that became a symbol.
use standardoc.Base.{
  String, ℕ, ◌≡◌, refl, sym as inverse, subst, inl, inr, true, Option, none, some, List, [], ◌∷◌,
  In, Option-cases, Bool-cases, ◌==◌, eq_iff,
}
use standardoc.Storage.Database.{Database, SymbolRow, EdgeRow, symbol_by_key, symbol_by_id}
use standardoc.Storage.Edges.{
  names_one_of, promotion_target, promote_edge, promote_unresolved_batch,
}
use standardoc.Storage.Index.{
  IsTarget, IsEdge, IsTable, IsIndexed, IsConsistent, In-map, symbol_by_key-none,
  symbol_by_key-some, symbol_by_id-of,
}

pub names_one_of-of :
    (symbols : List SymbolRow) (ids : List ℕ) (name : String) (t : SymbolRow)
    → In t.id ids
    → symbol_by_id symbols t.id ≡ some t
    → t.fqdn ≡ name
    → names_one_of symbols ids name ≡ true
unfolding names_one_of
names_one_of-of symbols [] name t h found named = absurd h
names_one_of-of symbols (id ∷ ids) name t (inl e) found named =
    subst (λ i. names_one_of symbols (i ∷ ids) name ≡ true) e
      (rw (names_one_of, found, (eq_iff t.fqdn name).1 named) refl)
names_one_of-of symbols (id ∷ ids) name t (inr h) found named =
    let rest = names_one_of-of symbols ids name t h found named in
    elim (Option-cases (symbol_by_id symbols id)) [
      | inl e ↦ rw (names_one_of, e) rest
      | inr (s, e) ↦ elim (Bool-cases (s.fqdn == name)) [
        | inl same ↦ rw (names_one_of, e, same) refl
        | inr other ↦ rw (names_one_of, e, other) rest
      ]
    ]

-- An edge that is resolved is so whatever is pending.
IsTarget-resolved :
    (p q : List ℕ) (symbols : List SymbolRow) (workspace_id : String) (to : Option ℕ)
    → IsTarget p symbols workspace_id to none
    → IsTarget q symbols workspace_id to none
unfolding IsTarget
IsTarget-resolved p q symbols workspace_id none h = absurd h
IsTarget-resolved p q symbols workspace_id (some id) h = h

-- A symbol of the name that the edge leaves open is pending.
IsTarget-pending :
    (p : List ℕ) (symbols : List SymbolRow) (workspace_id : String) (to : Option ℕ) (name : String)
    → IsTarget p symbols workspace_id to (some name)
    → (t : SymbolRow) → In t symbols
    → t.workspace_id ≡ workspace_id
    → t.fqdn ≡ name
    → In t.id p
unfolding IsTarget
IsTarget-pending p symbols workspace_id none name h t held scoped named = h t held scoped named
IsTarget-pending p symbols workspace_id (some id) name h t held scoped named = absurd h

IsTarget-unmatched :
    (p q : List ℕ) (symbols : List SymbolRow) (workspace_id : String) (to : Option ℕ)
    → (name : String) → IsTarget p symbols workspace_id to (some name)
    → ((t : SymbolRow) → In t symbols → t.workspace_id ≡ workspace_id → t.fqdn ≡ name → ⊥)
    → IsTarget q symbols workspace_id to (some name)
unfolding IsTarget
IsTarget-unmatched p q symbols workspace_id none name h unmatched =
    λ t held scoped named. absurd (unmatched t held scoped named)
IsTarget-unmatched p q symbols workspace_id (some id) name h unmatched = absurd h

module _ (symbols : List SymbolRow) (next : ℕ) (table : IsTable symbols next) (ids : List ℕ)
    (e : EdgeRow) where
  module _ (s : SymbolRow) (held : In s symbols) (same : s.id ≡ e.from_symbol_id)
      (end : IsTarget ids symbols s.workspace_id e.to_symbol_id e.to_unresolved) where
    -- The statement leaves the edge as it is.
    kept-IsEdge :
        (name : Option String)
        → e.to_unresolved ≡ name
        → promote_edge symbols ids e ≡ e
        → IsTarget [] symbols s.workspace_id e.to_symbol_id name
        → IsEdge [] symbols (promote_edge symbols ids e)
    kept-IsEdge name left kept h =
        subst (IsEdge [] symbols) (inverse kept) (
          s,
          held,
          same,
          subst (IsTarget [] symbols s.workspace_id e.to_symbol_id) (inverse left) h,
        )

    promoted-IsEdge :
        (t : SymbolRow)
        → In t symbols
        → t.workspace_id ≡ s.workspace_id
        → promote_edge symbols ids e ≡ record e { to_symbol_id = some t.id; to_unresolved = none }
        → IsEdge [] symbols (promote_edge symbols ids e)
    unfolding IsTarget
    promoted-IsEdge t there scoped promoted =
        subst (IsEdge [] symbols) (inverse promoted) (s, held, same, (t, there, refl, scoped))

    -- The name of the edge was looked for.
    looked_for-IsEdge :
        (name : String)
        → e.to_unresolved ≡ some name
        → names_one_of symbols ids name ≡ true
        → IsTarget ids symbols s.workspace_id e.to_symbol_id (some name)
        → IsEdge [] symbols (promote_edge symbols ids e)
    unfolding promote_edge promotion_target
    looked_for-IsEdge name left among end' =
        let source = symbol_by_id-of symbols next e.from_symbol_id s table held same in
        elim (Option-cases (symbol_by_key symbols s.workspace_id name)) [
          | inl missing ↦
              kept-IsEdge (some name) left
                (simp (promote_edge, left, among, promotion_target, source, missing))
                (IsTarget-unmatched ids [] symbols s.workspace_id e.to_symbol_id name end'
                  (λ t. symbol_by_key-none symbols s.workspace_id name t missing))
          | inr (t, found) ↦
              let (there, scoped, named) = symbol_by_key-some symbols s.workspace_id name t found in
              promoted-IsEdge t there scoped
                (simp (promote_edge, left, among, promotion_target, source, found))
        ]

    promote_edge-IsEdge_of : IsEdge [] symbols (promote_edge symbols ids e)
    unfolding promote_edge
    promote_edge-IsEdge_of = elim (Option-cases e.to_unresolved) [
      | inl resolved ↦
          kept-IsEdge none resolved (simp (promote_edge, resolved))
            (IsTarget-resolved ids [] symbols s.workspace_id e.to_symbol_id (rw resolved at end))
      | inr (name, left) ↦
          let end' : IsTarget ids symbols s.workspace_id e.to_symbol_id (some name) =
            subst (IsTarget ids symbols s.workspace_id e.to_symbol_id) left end in
          elim (Bool-cases (names_one_of symbols ids name)) [
            | inl among ↦ looked_for-IsEdge name left among end'
            | inr other ↦ kept-IsEdge (some name) left (simp (promote_edge, left, other)) (
                IsTarget-unmatched ids [] symbols s.workspace_id e.to_symbol_id name end'
                  (λ t there scoped named.
                    let pending =
                      IsTarget-pending ids symbols s.workspace_id e.to_symbol_id name end' t there
                        scoped named in
                    let found = symbol_by_id-of symbols next t.id t table there refl in
                    absurd (cc (other, names_one_of-of symbols ids name t pending found named))))
          ]
    ]

  promote_edge-IsEdge : IsEdge ids symbols e → IsEdge [] symbols (promote_edge symbols ids e)
  promote_edge-IsEdge (s, held, same, end) = promote_edge-IsEdge_of s held same end

-- If every open name that is a symbol of its source's workspace belongs to one of the ids, then after
-- the batch no edge has such a name: the index is consistent.
pub promote_unresolved_batch-IsConsistent :
    (db : Database) (ids : List ℕ)
    → IsIndexed ids db
    → IsConsistent (promote_unresolved_batch db ids)
unfolding promote_unresolved_batch
promote_unresolved_batch-IsConsistent db [] h = h
promote_unresolved_batch-IsConsistent db (id ∷ ids) h = record {
  table = h.table;
  edges = λ x held.
      let (e, there, same) = In-map (promote_edge db.symbols (id ∷ ids)) x db.edges held in
      subst (IsEdge [] db.symbols) (inverse same)
        (promote_edge-IsEdge db.symbols db.next_symbol_id h.table (id ∷ ids) e (h.edges e there));
}
