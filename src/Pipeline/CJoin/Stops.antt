-- ===== src/Pipeline/CJoin/Stops.antt =====
-- The edges that the join pass leaves, and when it stops at an error.
use standardoc.Base.{
  String, ℕ, ◌≡◌, ◌≢◌, refl, sym as inverse, ap, subst, ◌∙◌, inl, inr, not, some, List, [], ◌∷◌, In,
  find, keep_if, keep_if_complete, keep_if_sound, eqb_iff, Option-cases, Bool-cases,
}
use standardoc.Storage.Error.{ok, err, StorageError, Result-cases, ok-injective}
use standardoc.Storage.Database.{Database, SymbolRow, EdgeRow, symbol_by_id}
use standardoc.Storage.Symbols.{delete_symbol_row, delete_edges, leaves}
use standardoc.Storage.DeclLocation.{loses_its_end, upsert_decl_location, delete_from_symbols}
use standardoc.Storage.Index.{IsTarget, IsConsistent}
use standardoc.Pipeline.CJoin.{
  CJoinReport, DeclRow, decl_location, collect_decls, find_defs_by_name, join_decl, visit_decl,
  visit_decls, run_pass, default_report,
}
use standardoc.Pipeline.CJoin.Consistent.{run_pass-IsConsistent}
use standardoc.Pipeline.CJoin.Removed.{IsJoined, collect_decls-decl, is_decl-kind, run_pass_iff}

abbrev kept_edges : ℕ → List EdgeRow → List EdgeRow
kept_edges id = keep_if (λ e. not (leaves id e))

-- A round leaves the edges, or takes those that leave the prototype.
delete_from_symbols-edges :
    (db : Database) (id : ℕ) (db' : Database)
    → delete_from_symbols db id ≡ ok db'
    → db'.edges ≡ kept_edges id db.edges
unfolding delete_from_symbols delete_symbol_row delete_edges
delete_from_symbols-edges db id db' e = elim (Option-cases (find (loses_its_end id) db.edges)) [
  | inr (edge, found) ↦ absurd (cc (rw (delete_from_symbols, found) at e))
  | inl kept ↦
      inverse
        (ap (λ (x : Database). x.edges) (ok-injective _ _ (rw (delete_from_symbols, kept) at e)))
]

upsert_decl_location-edges :
    (db : Database) (d : DeclRow) (def_id : ℕ) (db' : Database)
    → upsert_decl_location db def_id (decl_location d) ≡ ok db'
    → db'.edges ≡ db.edges
unfolding upsert_decl_location
upsert_decl_location-edges db d def_id db' e =
    elim (Option-cases (symbol_by_id db.symbols def_id)) [
      | inl missing ↦ absurd (cc (rw (upsert_decl_location, missing) at e))
      | inr (s, found) ↦ inverse (
          ap (λ (x : Database). x.edges) (ok-injective _ _ (rw (upsert_decl_location, found) at e)))
    ]

-- An edge after a round is one of before, and one that does not leave the prototype is still there.
abbrev pub IsSubset : ℕ → List EdgeRow → List EdgeRow → Type 0
IsSubset id before after =
    ((e : EdgeRow) → In e after → In e before)
    × ((e : EdgeRow) → In e before → e.from_symbol_id ≢ id → In e after)

IsSubset-refl : (id : ℕ) (edges : List EdgeRow) → IsSubset id edges edges
IsSubset-refl id edges = (λ e held. held, λ e held apart. held)

kept_edges-IsSubset : (id : ℕ) (edges : List EdgeRow) → IsSubset id edges (kept_edges id edges)
kept_edges-IsSubset id edges = (
  λ e held. (keep_if_sound (λ x. not (leaves id x)) edges e held).0,
  λ e held apart.
      keep_if_complete (λ x. not (leaves id x)) edges e held
        (elim (Bool-cases (leaves id e)) [
          | inl gone ↦ absurd (apart ((eqb_iff e.from_symbol_id id).0 gone))
          | inr stays ↦ rw stays refl
        ]),
)

join_decl-edges :
    (db : Database) (d : DeclRow) (def_id : ℕ) (report : CJoinReport)
    → IsSubset d.id db.edges (join_decl db d def_id report).0.edges
unfolding join_decl
join_decl-edges db d def_id report =
    elim (Result-cases (upsert_decl_location db def_id (decl_location d))) [
      | inr (stopped, e) ↦ rw (join_decl, e) (IsSubset-refl d.id db.edges)
      | inl (db₁, e) ↦
          let same = upsert_decl_location-edges db d def_id db₁ e in
          elim (Result-cases (delete_from_symbols db₁ d.id)) [
            | inr (stopped, e') ↦
                rw (join_decl, e, e')
                  (subst (IsSubset d.id db.edges) (inverse same) (IsSubset-refl d.id db.edges))
            | inl (db₂, e') ↦
                rw (join_decl, e, e')
                  (subst (IsSubset d.id db.edges)
                    (inverse
                      (delete_from_symbols-edges db₁ d.id db₂ e' ∙ ap (kept_edges d.id) same))
                    (kept_edges-IsSubset d.id db.edges))
          ]
    ]

pub visit_decl-edges :
    (db : Database) (d : DeclRow) (defs : List ℕ) (report : CJoinReport)
    → IsSubset d.id db.edges (visit_decl db d defs report).0.edges
unfolding visit_decl
visit_decl-edges db d [] report = IsSubset-refl d.id db.edges
visit_decl-edges db d (def_id ∷ []) report = join_decl-edges db d def_id report
visit_decl-edges db d (a ∷ b ∷ defs) report = IsSubset-refl d.id db.edges

visit_decls-edges :
    (workspace_id : String) (ds : List DeclRow) (db : Database) (report : CJoinReport) (e : EdgeRow)
    → In e db.edges
    → ((d : DeclRow) → In d ds → e.from_symbol_id ≢ d.id)
    → In e (visit_decls workspace_id ds db report).0.edges
unfolding visit_decls
visit_decls-edges workspace_id [] db report e held apart = held
visit_decls-edges workspace_id (d ∷ ds) db report e held apart =
    let defs = find_defs_by_name db.symbols workspace_id d.name in
    let held' = (visit_decl-edges db d defs report).1 e held (apart d (inl refl)) in
    elim (Result-cases (visit_decl db d defs report).1) [
      | inr (stopped, found) ↦ rw (visit_decls, found) held'
      | inl (report', found) ↦
          rw (visit_decls, found)
            (visit_decls-edges workspace_id ds (visit_decl db d defs report).0 report' e held'
              (λ d' later. apart d' (inr later)))
    ]

-- In a consistent index the pass stops at an error as soon as an edge enters a prototype that it
-- would join, and comes from a symbol that is no prototype itself.
pub run_pass-stopped :
    (db : Database) (workspace_id : String) (s from : SymbolRow) (e : EdgeRow)
    → IsConsistent db
    → In s db.symbols
    → IsJoined db workspace_id s
    → In e db.edges
    → e.to_symbol_id ≡ some s.id
    → In from db.symbols
    → from.id ≡ e.from_symbol_id
    → from.language_kind ≢ "fn_decl"
    → (stopped : StorageError) × ((run_pass db workspace_id).1 ≡ err stopped)
unfolding run_pass IsTarget
run_pass-stopped db workspace_id s from e h held joined there enters source leaves_it other =
    elim (Result-cases (run_pass db workspace_id).1) [
      | inr stopped ↦ stopped
      | inl (report, done) ↦
          let stays =
            visit_decls-edges workspace_id (collect_decls db workspace_id) db default_report e there
              (λ d collected same.
                let (t, stored, tested, row) = collect_decls-decl db workspace_id d collected in
                let equal =
                  h.table.id_is_key from t source stored
                    (leaves_it ∙ same ∙ ap (λ (x : DeclRow). x.id) row) in
                other (
                  ap (λ (x : SymbolRow). x.language_kind) equal
                  ∙ is_decl-kind workspace_id t tested)) in
          let (f, f_held, f_same, end) = (run_pass-IsConsistent db workspace_id h).edges e stays in
          elim (Option-cases e.to_unresolved) [
            | inr (name, named) ↦ absurd (rw (named, enters) at end)
            | inl unnamed ↦
                let (t, t_held, t_same, scoped) = (rw (unnamed, enters) at end) in
                let (stored, unjoined) = (run_pass_iff db workspace_id report t h done).0 t_held in
                let equal = h.table.id_is_key s t held stored (inverse t_same) in
                absurd (unjoined (subst (IsJoined db workspace_id) equal joined))
          ]
    ]
