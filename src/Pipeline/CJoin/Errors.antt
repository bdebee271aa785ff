-- ===== src/Pipeline/CJoin/Errors.antt =====
-- When the join pass stops, and what a second pass does.
use standardoc.Base.{
  String, ℕ, ◌+◌, ◌≡◌, refl, sym as inverse, ap, subst, ◌∙◌, inl, inr, List, [], ◌∷◌, length, In,
  arith,
}
use standardoc.Storage.Error.{Result, ok, Result-cases, ok-injective}
use standardoc.Storage.Database.{Database}
use standardoc.Storage.Index.{IsConsistent}
use standardoc.Pipeline.CJoin.{
  CJoinReport, DeclRow, collect_decls, find_defs_by_name, visit_decl, visit_decls, run_pass,
  default_report,
}
use standardoc.Pipeline.CJoin.Round.{IsUnique, visits, visit_decl-symbols}
use standardoc.Pipeline.CJoin.Removed.{collect_decls-decl, run_pass_iff, run_pass-defs}

visit_decls-visits :
    (workspace_id : String) (ds : List DeclRow) (db : Database) (report report' : CJoinReport)
    → (visit_decls workspace_id ds db report).1 ≡ ok report'
    → visits report' ≡ visits report + length ds
unfolding visit_decls
visit_decls-visits workspace_id [] db report report' h =
    inverse (ap visits (ok-injective _ _ h)) ∙ omega arith
visit_decls-visits workspace_id (d ∷ ds) db report report' h =
    let defs = find_defs_by_name db.symbols workspace_id d.name in
    let visited = visit_decl db d defs report in
    elim (Result-cases visited.1) [
      | inr (stopped, e) ↦ absurd (cc (rw (visit_decls, e) at h))
      | inl (report₁, e) ↦
          let rest =
            visit_decls-visits workspace_id ds visited.0 report₁ report'
              (rw (visit_decls, e) at h) in
          elim (visit_decl-symbols db d defs report report₁ e) [
            | inl (unique, removed, raised) ↦
                rest ∙ ap (λ n. n + length ds) (ap visits raised) ∙ omega arith
            | inr (several, kept, raised, counted) ↦ omega (arith, rest, counted)
          ]
    ]

-- The counters of a pass that ends without an error add up to the number of the prototypes.
pub run_pass-visits :
    (db : Database) (workspace_id : String) (report : CJoinReport)
    → (run_pass db workspace_id).1 ≡ ok report
    → report.joined + report.orphans_kept + report.ambiguous_skipped
      ≡ length (collect_decls db workspace_id)
unfolding run_pass
run_pass-visits db workspace_id report done = omega (
  arith,
  visit_decls-visits workspace_id (collect_decls db workspace_id) db default_report report done,
)

-- A round that has nothing to join changes nothing, and ends well.
visit_decl-skips :
    (db : Database) (d : DeclRow) (defs : List ℕ) (report : CJoinReport)
    → (IsUnique defs → ⊥)
    → (report' : CJoinReport) × (visit_decl db d defs report ≡ (db, ok report'))
      × (report'.joined ≡ report.joined)
unfolding visit_decl
visit_decl-skips db d [] report h = (_, refl, refl)
visit_decl-skips db d (def_id ∷ []) report h = absurd (h (def_id, refl))
visit_decl-skips db d (a ∷ b ∷ defs) report h = (_, refl, refl)

visit_decls-skips :
    (workspace_id : String) (ds : List DeclRow) (db : Database) (report : CJoinReport)
    → ((d : DeclRow) → In d ds → IsUnique (find_defs_by_name db.symbols workspace_id d.name) → ⊥)
    → (report' : CJoinReport) × (visit_decls workspace_id ds db report ≡ (db, ok report'))
      × (report'.joined ≡ report.joined)
unfolding visit_decls
visit_decls-skips workspace_id [] db report h = (report, refl, refl)
visit_decls-skips workspace_id (d ∷ ds) db report h =
    let defs = find_defs_by_name db.symbols workspace_id d.name in
    let (report₁, e, counted) = visit_decl-skips db d defs report (h d (inl refl)) in
    let (report₂, e', counted') =
      visit_decls-skips workspace_id ds db report₁ (λ d' held. h d' (inr held)) in
    (
      report₂,
      rw
          (
            visit_decls,
            ap (λ (x : Database × Result CJoinReport). x.1) e,
            ap (λ (x : Database × Result CJoinReport). x.0) e,
          )
          e',
      counted' ∙ counted,
    )

-- A pass over a consistent index that ended without an error leaves nothing to join: a second pass
-- ends without an error, changes nothing, and joins nothing.
pub run_pass_idem :
    (db : Database) (workspace_id : String) (report : CJoinReport)
    → IsConsistent db
    → (run_pass db workspace_id).1 ≡ ok report
    → (again : CJoinReport) × (run_pass (run_pass db workspace_id).0 workspace_id
        ≡ ((run_pass db workspace_id).0, ok again))
      × (again.joined ≡ 0)
unfolding run_pass
run_pass_idem db workspace_id report h done =
    let db' = (run_pass db workspace_id).0 in
    visit_decls-skips workspace_id (collect_decls db' workspace_id) db' default_report
      (λ d held unique.
        let (s, there, tested, e) = collect_decls-decl db' workspace_id d held in
        let (stored, unjoined) = (run_pass_iff db workspace_id report s h done).0 there in
        unjoined (
          tested,
          subst IsUnique
              (run_pass-defs db workspace_id report h done d.name
                ∙ ap (find_defs_by_name db.symbols workspace_id) (ap (λ (x : DeclRow). x.name) e))
              unique,
        ))
