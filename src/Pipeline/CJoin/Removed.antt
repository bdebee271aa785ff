-- ===== src/Pipeline/CJoin/Removed.antt =====
-- What the join pass removes, and its counters.
use standardoc.Base.{
  String, ◌≡◌, refl, sym as inverse, ap, subst, ◌∙◌, inl, inr, ◌↔◌, true, List, [], ◌∷◌, In,
  keep_if_sound, keep_if_complete, ◌==◌, eq_iff,
}
use standardoc.Storage.Error.{ok, Result-cases}
use standardoc.Storage.Database.{Database, SymbolRow}
use standardoc.Storage.Index.{IsConsistent, In-map, In-map_of}
use standardoc.Storage.Index.Delete.{without, without_sound, without_complete}
use standardoc.Pipeline.CJoin.{
  CJoinReport, DeclRow, is_decl, decl_row, collect_decls, find_defs_by_name, visit_decl,
  visit_decls, run_pass, default_report,
}
use standardoc.Pipeline.CJoin.Round.{
  IsUnique, and_left, and_right, visit_decl-symbols, find_defs_by_name-without,
}

-- A prototype of the workspace with one definition of its name.
abbrev pub IsJoined : Database → String → SymbolRow → Type 0
IsJoined db workspace_id s =
    (is_decl workspace_id s ≡ true) × IsUnique (find_defs_by_name db.symbols workspace_id s.name)

module _ (stored : List SymbolRow) (workspace_id : String) where
  abbrev JoinedBy : List DeclRow → SymbolRow → Type 0
  JoinedBy ds s =
      (d : DeclRow) × In d ds
      × (d.id ≡ s.id)
      × IsUnique (find_defs_by_name stored workspace_id d.name)

  -- The loop sees the definitions that were stored when it began.
  pub record IsReady (ds : List DeclRow) (symbols : List SymbolRow) : Type 0 where
    pub same :
        (name : String)
        → find_defs_by_name symbols workspace_id name ≡ find_defs_by_name stored workspace_id name
    pub proto :
        (d : DeclRow) (s : SymbolRow)
        → In d ds
        → In s symbols
        → s.id ≡ d.id
        → s.language_kind ≡ "fn_decl"

  module _ (d : DeclRow) (ds : List DeclRow) (symbols : List SymbolRow) where
    pub IsReady-skip : IsReady (d ∷ ds) symbols → IsReady ds symbols
    IsReady-skip h = record { same = h.same; proto = λ d' s held. h.proto d' s (inr held) }

    pub IsReady-join : IsReady (d ∷ ds) symbols → IsReady ds (without d.id symbols)
    IsReady-join h = record {
      same = λ name.
          find_defs_by_name-without d.id symbols workspace_id name (λ s. h.proto d s (inl refl))
          ∙ h.same name;
      proto = λ d' s held there. h.proto d' s (inr held) (without_sound d.id symbols s there).0;
    }

  visit_decls-symbols :
      (ds : List DeclRow) (db : Database) (report report' : CJoinReport)
      → IsReady ds db.symbols
      → (visit_decls workspace_id ds db report).1 ≡ ok report'
      → (s : SymbolRow)
      → In s (visit_decls workspace_id ds db report).0.symbols
        ↔ (In s db.symbols × (JoinedBy ds s → ⊥))
  unfolding visit_decls
  visit_decls-symbols [] db report report' ready h s = (λ held. (held, λ j. absurd j.1), λ k. k.0)
  visit_decls-symbols (d ∷ ds) db report report' ready h s =
      let defs = find_defs_by_name db.symbols workspace_id d.name in
      let visited = visit_decl db d defs report in
      elim (Result-cases visited.1) [
        | inr (stopped, e) ↦ absurd (cc (rw (visit_decls, e) at h))
        | inl (report₁, e) ↦
            let rest : (IsReady ds visited.0.symbols)
                → In s (visit_decls workspace_id ds visited.0 report₁).0.symbols
                  ↔ (In s visited.0.symbols × (JoinedBy ds s → ⊥)) =
              λ ready'.
                visit_decls-symbols ds visited.0 report₁ report' ready' (rw (visit_decls, e) at h)
                  s in
            rw (visit_decls, e)
              (elim (visit_decl-symbols db d defs report report₁ e) [
                | inl (unique, removed, raised) ↦
                    let (to, from) =
                      rest (
                        subst (IsReady ds) (inverse removed)
                          (IsReady-join d ds db.symbols ready)) in
                    (
                      λ held.
                          let (there, others) = to held in
                          let (there', apart) =
                            without_sound d.id db.symbols s (subst (In s) removed there) in
                          (
                            there',
                            λ j. elim j.1 [
                              | inl here ↦
                                  absurd (apart (inverse j.2 ∙ ap (λ (x : DeclRow). x.id) here))
                              | inr later ↦ others (j.0, later, j.2, j.3)
                            ],
                          ),
                      λ k. from (
                        subst (In s) (inverse removed) (
                            without_complete d.id db.symbols s k.0 (λ same. k.1 (
                              d,
                              inl refl,
                              inverse same,
                              subst IsUnique (ready.same d.name) unique,
                            ))),
                        λ j. k.1 (j.0, inr j.1, j.2, j.3),
                      ),
                    )
                | inr (several, kept, raised, counted) ↦
                    let kept' : visited.0.symbols ≡ db.symbols =
                      ap (λ (x : Database). x.symbols) kept in
                    let (to, from) =
                      rest
                        (subst (IsReady ds) (inverse kept') (IsReady-skip d ds db.symbols ready)) in
                    (
                      λ held.
                          let (there, others) = to held in
                          (
                            subst (In s) kept' there,
                            λ j. elim j.1 [
                              | inl here ↦ several (
                                  subst IsUnique
                                    (ap (find_defs_by_name stored workspace_id)
                                        (ap (λ (x : DeclRow). x.name) here)
                                      ∙ inverse (ready.same d.name))
                                    j.3)
                              | inr later ↦ others (j.0, later, j.2, j.3)
                            ],
                          ),
                      λ k.
                          from
                            (subst (In s) (inverse kept') k.0, λ j. k.1 (j.0, inr j.1, j.2, j.3)),
                    )
              ])
      ]

  -- The definitions of every name are those that were stored when the loop began.
  visit_decls-defs :
      (ds : List DeclRow) (db : Database) (report report' : CJoinReport)
      → IsReady ds db.symbols
      → (visit_decls workspace_id ds db report).1 ≡ ok report'
      → (name : String)
      → find_defs_by_name (visit_decls workspace_id ds db report).0.symbols workspace_id name
        ≡ find_defs_by_name stored workspace_id name
  unfolding visit_decls
  visit_decls-defs [] db report report' ready h name = ready.same name
  visit_decls-defs (d ∷ ds) db report report' ready h name =
      let defs = find_defs_by_name db.symbols workspace_id d.name in
      let visited = visit_decl db d defs report in
      elim (Result-cases visited.1) [
        | inr (stopped, e) ↦ absurd (cc (rw (visit_decls, e) at h))
        | inl (report₁, e) ↦
            let ready' : IsReady ds visited.0.symbols =
              elim (visit_decl-symbols db d defs report report₁ e) [
                | inl (unique, removed, raised) ↦
                    subst (IsReady ds) (inverse removed) (IsReady-join d ds db.symbols ready)
                | inr (several, kept, raised, counted) ↦
                    subst (IsReady ds) (inverse (ap (λ (x : Database). x.symbols) kept))
                      (IsReady-skip d ds db.symbols ready)
              ] in
            rw (visit_decls, e)
              (visit_decls-defs ds visited.0 report₁ report' ready' (rw (visit_decls, e) at h) name)
      ]

pub decl_row-collected :
    (db : Database) (workspace_id : String) (s : SymbolRow)
    → In s db.symbols
    → is_decl workspace_id s ≡ true
    → In (decl_row s) (collect_decls db workspace_id)
unfolding collect_decls
decl_row-collected db workspace_id s held tested =
    In-map_of decl_row s _ (keep_if_complete (is_decl workspace_id) db.symbols s held tested)

pub collect_decls-decl :
    (db : Database) (workspace_id : String) (d : DeclRow)
    → In d (collect_decls db workspace_id)
    → (s : SymbolRow) × In s db.symbols × (is_decl workspace_id s ≡ true) × (d ≡ decl_row s)
unfolding collect_decls
collect_decls-decl db workspace_id d h =
    let (s, kept, e) = In-map decl_row d _ h in
    let (held, tested) = keep_if_sound (is_decl workspace_id) db.symbols s kept in
    (s, held, tested, e)

pub is_decl-kind :
    (workspace_id : String) (s : SymbolRow)
    → is_decl workspace_id s ≡ true
    → s.language_kind ≡ "fn_decl"
is_decl-kind workspace_id s h = (eq_iff s.language_kind "fn_decl").0 (
    and_left (s.language_kind == "fn_decl") (s.workspace_id == workspace_id)
      (and_right (s.language == "c") _ h))

pub collect_decls-IsReady :
    (db : Database) (workspace_id : String)
    → IsConsistent db
    → IsReady db.symbols workspace_id (collect_decls db workspace_id) db.symbols
collect_decls-IsReady db workspace_id h = record {
  same = λ name. refl;
  proto = λ d s collected held same.
      let (t, there, tested, e) = collect_decls-decl db workspace_id d collected in
      let equal = h.table.id_is_key s t held there (same ∙ ap (λ (x : DeclRow). x.id) e) in
      ap (λ (x : SymbolRow). x.language_kind) equal ∙ is_decl-kind workspace_id t tested;
}

-- In a consistent index, a pass that ends without an error keeps exactly the symbols that are not
-- joined prototypes: a prototype of the workspace goes if and only if there is exactly one
-- definition of its name, and every other symbol stays as it is.
pub run_pass_iff :
    (db : Database) (workspace_id : String) (report : CJoinReport) (s : SymbolRow)
    → IsConsistent db
    → (run_pass db workspace_id).1 ≡ ok report
    → In s (run_pass db workspace_id).0.symbols
      ↔ (In s db.symbols × (IsJoined db workspace_id s → ⊥))
unfolding run_pass
run_pass_iff db workspace_id report s h done =
    let ds = collect_decls db workspace_id in
    let (to, from) =
      visit_decls-symbols db.symbols workspace_id ds db default_report report
        (collect_decls-IsReady db workspace_id h) done s in
    (
      λ held.
          let (there, others) = to held in
          (
            there,
            λ joined.
                others
                  (decl_row s, decl_row-collected db workspace_id s there joined.0, refl, joined.1),
          ),
      λ k. from (
        k.0,
        λ by.
            let (t, there, tested, e) = collect_decls-decl db workspace_id by.0 by.1 in
            let equal =
              h.table.id_is_key s t k.0 there (inverse by.2 ∙ ap (λ (x : DeclRow). x.id) e) in
            k.1 (
              subst (λ x. is_decl workspace_id x ≡ true) (inverse equal) tested,
              subst IsUnique
                  (ap (find_defs_by_name db.symbols workspace_id) (
                    ap (λ (x : DeclRow). x.name) e
                    ∙ ap (λ (x : SymbolRow). x.name) (inverse equal)))
                  by.3,
            ),
      ),
    )

pub run_pass-defs :
    (db : Database) (workspace_id : String) (report : CJoinReport)
    → IsConsistent db
    → (run_pass db workspace_id).1 ≡ ok report
    → (name : String)
    → find_defs_by_name (run_pass db workspace_id).0.symbols workspace_id name
      ≡ find_defs_by_name db.symbols workspace_id name
unfolding run_pass
run_pass-defs db workspace_id report h done =
    visit_decls-defs db.symbols workspace_id (collect_decls db workspace_id) db default_report
      report (collect_decls-IsReady db workspace_id h) done
