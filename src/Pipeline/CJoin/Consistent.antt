-- ===== src/Pipeline/CJoin/Consistent.antt =====
-- The join pass leaves the index consistent, whether it ends or stops at an error.
use mathlib.Core.Option
use standardoc.Base.{
  String, ℕ, ◌≡◌, refl, ap, ap₂, subst, ◌∙◌, inl, inr, false, List, [], ◌∷◌, map, In, find,
  Option-cases,
}
use standardoc.Ir.Symbol.{SymbolLocation}
use standardoc.Storage.Error.{ok, Result-cases, ok-injective}
use standardoc.Storage.Database.{Database, SymbolRow, EdgeRow, symbol_by_id}
use standardoc.Storage.Symbols.{points_to, demote_edge, delete_symbol_row, delete_symbol}
use standardoc.Storage.DeclLocation.{loses_its_end, upsert_decl_location, delete_from_symbols}
use standardoc.Storage.Index.{IsTarget, IsIndexed, IsConsistent, find-none}
use standardoc.Storage.Index.Delete.{delete_symbol-IsIndexed}
use standardoc.Storage.Index.Frame.{SameIndex, IsIndexed-same}
use standardoc.Pipeline.CJoin.{
  CJoinReport, DeclRow, find_defs_by_name, decl_location, join_decl, visit_decl, visit_decls,
  run_pass, collect_decls, default_report,
}

map_fixed : {A : Type 0} (f : A → A) (xs : List A) → ((x : A) → In x xs → f x ≡ x) → map f xs ≡ xs
map_fixed f [] h = refl
map_fixed f (x ∷ xs) h =
    ap₂ (λ y ys. y ∷ ys) (h x (inl refl)) (map_fixed f xs (λ y held. h y (inr held)))

-- An edge has one end, so an edge that keeps its end does not enter the symbol.
not_entered :
    (pending : List ℕ) (symbols : List SymbolRow) (workspace_id : String) (id : ℕ) (e : EdgeRow)
    → IsTarget pending symbols workspace_id e.to_symbol_id e.to_unresolved
    → loses_its_end id e ≡ false
    → points_to id e ≡ false
unfolding IsTarget
not_entered pending symbols workspace_id id e end kept = elim (Option-cases e.to_unresolved) [
  | inl unnamed ↦ (rw unnamed at kept)
  | inr (name, named) ↦ elim (Option-cases e.to_symbol_id) [
    | inl open_end ↦ rw open_end refl
    | inr (t, found) ↦ absurd (rw (named, found) at end)
  ]
]

pub delete_from_symbols-IsIndexed :
    (pending : List ℕ) (db : Database) (id : ℕ) (db' : Database)
    → IsIndexed pending db
    → delete_from_symbols db id ≡ ok db'
    → IsIndexed pending db'
unfolding delete_from_symbols delete_symbol
delete_from_symbols-IsIndexed pending db id db' h e =
    elim (Option-cases (find (loses_its_end id) db.edges)) [
      | inr (edge, found) ↦ absurd (cc (rw (delete_from_symbols, found) at e))
      | inl kept ↦
          let fqdn = Option.map (λ (s : SymbolRow). s.fqdn) (symbol_by_id db.symbols id) in
          let same : map (demote_edge id fqdn) db.edges ≡ db.edges =
            map_fixed (demote_edge id fqdn) db.edges (λ x held.
              let (s, there, from, end) = h.edges x held in
              let misses =
                not_entered pending db.symbols s.workspace_id id x end
                  (find-none (loses_its_end id) db.edges x kept held) in
              simp (demote_edge, misses)) in
          let deleted : delete_symbol db id ≡ db' =
            ap (λ edges. delete_symbol_row (record db { edges = edges }) id) same
            ∙ ok-injective _ _ (rw (delete_from_symbols, kept) at e) in
          subst (IsIndexed pending) deleted (delete_symbol-IsIndexed pending db id h)
    ]

upsert_decl_location-SameIndex :
    (db : Database) (id : ℕ) (location : SymbolLocation) (db' : Database)
    → upsert_decl_location db id location ≡ ok db'
    → SameIndex db db'
unfolding upsert_decl_location
upsert_decl_location-SameIndex db id location db' e =
    elim (Option-cases (symbol_by_id db.symbols id)) [
      | inl missing ↦ absurd (cc (rw (upsert_decl_location, missing) at e))
      | inr (s, found) ↦
          subst (SameIndex db) (ok-injective _ _ (rw (upsert_decl_location, found) at e))
            (record { symbols = refl; next_symbol_id = refl; edges = refl })
    ]

join_decl-IsIndexed :
    (pending : List ℕ) (db : Database) (d : DeclRow) (def_id : ℕ) (report : CJoinReport)
    → IsIndexed pending db
    → IsIndexed pending (join_decl db d def_id report).0
unfolding join_decl
join_decl-IsIndexed pending db d def_id report h =
    elim (Result-cases (upsert_decl_location db def_id (decl_location d))) [
      | inr (stopped, e) ↦ rw (join_decl, e) h
      | inl (db₁, e) ↦
          let h₁ =
            IsIndexed-same pending db db₁
              (upsert_decl_location-SameIndex db def_id (decl_location d) db₁ e) h in
          elim (Result-cases (delete_from_symbols db₁ d.id)) [
            | inr (stopped, e') ↦ rw (join_decl, e, e') h₁
            | inl (db₂, e') ↦
                rw (join_decl, e, e') (delete_from_symbols-IsIndexed pending db₁ d.id db₂ h₁ e')
          ]
    ]

visit_decl-IsIndexed :
    (pending : List ℕ) (db : Database) (d : DeclRow) (defs : List ℕ) (report : CJoinReport)
    → IsIndexed pending db
    → IsIndexed pending (visit_decl db d defs report).0
unfolding visit_decl
visit_decl-IsIndexed pending db d [] report h = h
visit_decl-IsIndexed pending db d (def_id ∷ []) report h =
    join_decl-IsIndexed pending db d def_id report h
visit_decl-IsIndexed pending db d (a ∷ b ∷ defs) report h = h

visit_decls-IsIndexed :
    (pending : List ℕ) (workspace_id : String) (ds : List DeclRow) (db : Database)
    (report : CJoinReport)
    → IsIndexed pending db
    → IsIndexed pending (visit_decls workspace_id ds db report).0
unfolding visit_decls
visit_decls-IsIndexed pending workspace_id [] db report h = h
visit_decls-IsIndexed pending workspace_id (d ∷ ds) db report h =
    let defs = find_defs_by_name db.symbols workspace_id d.name in
    let h' = visit_decl-IsIndexed pending db d defs report h in
    elim (Result-cases (visit_decl db d defs report).1) [
      | inr (stopped, e) ↦ rw (visit_decls, e) h'
      | inl (report', e) ↦
          rw (visit_decls, e)
            (visit_decls-IsIndexed pending workspace_id ds (visit_decl db d defs report).0 report'
              h')
    ]

-- The join pass keeps the index consistent. This holds whether the pass ends or stops at an error
-- after some of its statements, which are not undone.
pub run_pass-IsConsistent :
    (db : Database) (workspace_id : String)
    → IsConsistent db
    → IsConsistent (run_pass db workspace_id).0
unfolding run_pass
run_pass-IsConsistent db workspace_id h =
    visit_decls-IsIndexed [] workspace_id (collect_decls db workspace_id) db default_report h
