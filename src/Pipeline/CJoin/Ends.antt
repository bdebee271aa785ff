-- ===== src/Pipeline/CJoin/Ends.antt =====
-- When the join pass ends without an error.
use standardoc.Base.{
  String, ℕ, ◌≡◌, ◌≢◌, refl, sym as inverse, ap, subst, inl, inr, some, List, [], ◌∷◌, In, find,
  keep_if_sound, eqb_iff, Option-cases,
}
use standardoc.Storage.Error.{ok}
use standardoc.Storage.Database.{Database, SymbolRow, EdgeRow, has_id, symbol_by_id}
use standardoc.Storage.DeclLocation.{loses_its_end, upsert_decl_location, delete_from_symbols}
use standardoc.Storage.Index.{IsConsistent, find-some, find-none, In-map}
use standardoc.Storage.Index.Delete.{points_to_iff}
use standardoc.Pipeline.CJoin.{
  CJoinReport, DeclRow, is_def, decl_location, collect_decls, find_defs_by_name, join_decl,
  visit_decl, visit_decls, run_pass, default_report,
}
use standardoc.Pipeline.CJoin.Round.{IsUnique, visit_decl-symbols}
use standardoc.Pipeline.CJoin.Removed.{
  IsJoined, IsReady, IsReady-skip, IsReady-join, collect_decls-decl, collect_decls-IsReady,
}
use standardoc.Pipeline.CJoin.Stops.{visit_decl-edges}

-- The definition is stored, so its declaration can be.
upsert_decl_location-ok :
    (db : Database) (workspace_id name : String) (d : DeclRow) (def_id : ℕ)
    → find_defs_by_name db.symbols workspace_id name ≡ def_id ∷ []
    → (db' : Database) × (upsert_decl_location db def_id (decl_location d) ≡ ok db')
      × (db'.edges ≡ db.edges)
unfolding upsert_decl_location find_defs_by_name symbol_by_id
upsert_decl_location-ok db workspace_id name d def_id defs =
    elim (Option-cases (symbol_by_id db.symbols def_id)) [
      | inr (s, found) ↦ rw (upsert_decl_location, found) (_, refl, refl)
      | inl missing ↦
          let (s, kept, same) =
            In-map (λ (x : SymbolRow). x.id) def_id _
              (subst (In def_id) (inverse defs) (inl refl)) in
          let (held, wanted) = keep_if_sound (is_def workspace_id name) db.symbols s kept in
          absurd (
            cc (
              find-none (has_id def_id) db.symbols s missing held,
              (eqb_iff s.id def_id).1 (inverse same),
            ))
    ]

delete_from_symbols-ok :
    (db : Database) (id : ℕ)
    → ((e : EdgeRow) → In e db.edges → e.to_symbol_id ≢ some id)
    → (db' : Database) × (delete_from_symbols db id ≡ ok db')
unfolding delete_from_symbols
delete_from_symbols-ok db id apart = elim (Option-cases (find (loses_its_end id) db.edges)) [
  | inl kept ↦ rw (delete_from_symbols, kept) (_, refl)
  | inr (e, found) ↦
      let (held, lost) = find-some (loses_its_end id) db.edges e found in
      elim (Option-cases e.to_unresolved) [
        | inl unnamed ↦ absurd (apart e held (points_to_iff id e (rw unnamed at lost)))
        | inr (name, named) ↦ absurd (cc (rw named at lost))
      ]
]

visit_decl-ok :
    (workspace_id : String) (db : Database) (d : DeclRow) (defs : List ℕ) (report : CJoinReport)
    → find_defs_by_name db.symbols workspace_id d.name ≡ defs
    → (IsUnique defs → (e : EdgeRow) → In e db.edges → e.to_symbol_id ≢ some d.id)
    → (report' : CJoinReport) × ((visit_decl db d defs report).1 ≡ ok report')
unfolding visit_decl join_decl
visit_decl-ok workspace_id db d [] report found apart = (_, refl)
visit_decl-ok workspace_id db d (a ∷ b ∷ defs) report found apart = (_, refl)
visit_decl-ok workspace_id db d (def_id ∷ []) report found apart =
    let (db₁, e, same) = upsert_decl_location-ok db workspace_id d.name d def_id found in
    let (db₂, e') =
      delete_from_symbols-ok db₁ d.id (λ x held. apart (def_id, refl) x (subst (In x) same held)) in
    rw (join_decl, e, e') (_, refl)

visit_decls-ok :
    (stored : List SymbolRow) (workspace_id : String) (ds : List DeclRow) (db : Database)
    (report : CJoinReport)
    → IsReady stored workspace_id ds db.symbols
    → ((d : DeclRow)
        → In d ds
        → IsUnique (find_defs_by_name stored workspace_id d.name)
        → (e : EdgeRow) → In e db.edges
        → e.to_symbol_id ≢ some d.id)
    → (report' : CJoinReport) × ((visit_decls workspace_id ds db report).1 ≡ ok report')
unfolding visit_decls
visit_decls-ok stored workspace_id [] db report ready apart = (report, refl)
visit_decls-ok stored workspace_id (d ∷ ds) db report ready apart =
    let defs = find_defs_by_name db.symbols workspace_id d.name in
    let (report₁, e) =
      visit_decl-ok workspace_id db d defs report refl
        (λ unique. apart d (inl refl) (subst IsUnique (ready.same d.name) unique)) in
    let visited = visit_decl db d defs report in
    let ready' : IsReady stored workspace_id ds visited.0.symbols =
      elim (visit_decl-symbols db d defs report report₁ e) [
        | inl (unique, removed, raised) ↦
            subst (IsReady stored workspace_id ds) (inverse removed)
              (IsReady-join stored workspace_id d ds db.symbols ready)
        | inr (several, kept, raised, counted) ↦
            subst (IsReady stored workspace_id ds) (inverse (ap (λ (x : Database). x.symbols) kept))
              (IsReady-skip stored workspace_id d ds db.symbols ready)
      ] in
    rw (visit_decls, e)
      (visit_decls-ok stored workspace_id ds visited.0 report₁ ready' (λ d' later unique x held.
        apart d' (inr later) unique x ((visit_decl-edges db d defs report).0 x held)))

-- In a consistent index the pass ends without an error when no edge enters a prototype that has one
-- definition.
pub run_pass-ok :
    (db : Database) (workspace_id : String)
    → IsConsistent db
    → ((s : SymbolRow) (e : EdgeRow)
        → In s db.symbols
        → IsJoined db workspace_id s
        → In e db.edges
        → e.to_symbol_id ≢ some s.id)
    → (report : CJoinReport) × ((run_pass db workspace_id).1 ≡ ok report)
unfolding run_pass
run_pass-ok db workspace_id h apart =
    visit_decls-ok db.symbols workspace_id (collect_decls db workspace_id) db default_report
      (collect_decls-IsReady db workspace_id h)
      (λ d collected unique e held.
        let (s, there, tested, row) = collect_decls-decl db workspace_id d collected in
        subst (λ id. e.to_symbol_id ≢ some id) (inverse (ap (λ (x : DeclRow). x.id) row))
          (apart s e there
            (
              tested,
              subst IsUnique
                  (ap (find_defs_by_name db.symbols workspace_id)
                    (ap (λ (x : DeclRow). x.name) row))
                  unique,
            )
            held))
