-- ===== src/Pipeline/CJoin.antt =====
-- crates/standardoc-core/src/pipeline/c_join.rs: each prototype of a C header is joined with the
-- one definition of its name. The statements run outside a transaction, so what an error leaves
-- behind is part of the result. The rows of a query come in the order of the table.
pub mod Round
pub mod Consistent
pub mod Removed
pub mod Errors
pub mod Stops
pub mod Ends
use standardoc.Base.{String, ℕ, suc, Bool, ◌&&◌, List, [], ◌∷◌, map, keep_if, ◌==◌}
use standardoc.Ir.Symbol.{SymbolLocation}
use standardoc.Storage.Error.{Result, ok, err}
use standardoc.Storage.Database.{Database, SymbolRow}
use standardoc.Pipeline.Writer.{primary_workspace_id}
use standardoc.Storage.DeclLocation.{upsert_decl_location, delete_from_symbols}

pub record CJoinReport : Type 0 where
  pub joined : ℕ
  pub orphans_kept : ℕ
  pub ambiguous_skipped : ℕ

abbrev pub default_report : CJoinReport
default_report = record { joined = 0; orphans_kept = 0; ambiguous_skipped = 0 }

pub record DeclRow : Type 0 where
  pub id : ℕ
  pub name : String
  pub file_path : String
  pub start_line : ℕ
  pub end_line : ℕ
  pub start_col : ℕ
  pub end_col : ℕ

-- `WHERE language = 'c' AND language_kind = 'fn_decl' AND workspace_id = ?1`
abbrev pub is_decl : String → SymbolRow → Bool
is_decl workspace_id s =
    s.language == "c" && (s.language_kind == "fn_decl" && s.workspace_id == workspace_id)

abbrev pub decl_row : SymbolRow → DeclRow
decl_row s = record {
  id = s.id;
  name = s.name;
  file_path = s.file_path;
  start_line = s.start_line;
  end_line = s.end_line;
  start_col = s.start_col;
  end_col = s.end_col;
}

unfoldable pub collect_decls : Database → String → List DeclRow
collect_decls db workspace_id = map decl_row (keep_if (is_decl workspace_id) db.symbols)

-- `WHERE language = 'c' AND language_kind = 'fn' AND name = ?1 AND workspace_id = ?2`
abbrev pub is_def : String → String → SymbolRow → Bool
is_def workspace_id name s =
    s.language == "c"
    && (s.language_kind == "fn" && (s.name == name && s.workspace_id == workspace_id))

unfoldable pub find_defs_by_name : List SymbolRow → String → String → List ℕ
find_defs_by_name symbols workspace_id name =
    map (λ (s : SymbolRow). s.id) (keep_if (is_def workspace_id name) symbols)

abbrev pub decl_location : DeclRow → SymbolLocation
decl_location d = record {
  file = d.file_path;
  start_line = d.start_line;
  end_line = d.end_line;
  start_col = d.start_col;
  end_col = d.end_col;
}

-- The arm of one definition.
unfoldable pub join_decl : Database → DeclRow → ℕ → CJoinReport → Database × Result CJoinReport
unfolding upsert_decl_location delete_from_symbols
join_decl db d def_id report = elim (upsert_decl_location db def_id (decl_location d)) [
  | err stopped ↦ (db, err stopped)
  | ok db₁ ↦ elim (delete_from_symbols db₁ d.id) [
    | err stopped ↦ (db₁, err stopped)
    | ok db₂ ↦ (db₂, ok (record report { joined = suc report.joined }))
  ]
]

-- `match defs.len()`
unfoldable pub visit_decl :
    Database → DeclRow → List ℕ → CJoinReport → Database × Result CJoinReport
unfolding join_decl
visit_decl db d [] report = (db, ok (record report { orphans_kept = suc report.orphans_kept }))
visit_decl db d (def_id ∷ []) report = join_decl db d def_id report
visit_decl db d (a ∷ b ∷ defs) report =
    (db, ok (record report { ambiguous_skipped = suc report.ambiguous_skipped }))

-- The loop over the prototypes.
unfoldable pub visit_decls :
    String → List DeclRow → Database → CJoinReport → Database × Result CJoinReport
unfolding visit_decl find_defs_by_name
visit_decls workspace_id [] db report = (db, ok report)
visit_decls workspace_id (d ∷ ds) db report =
    let visited = visit_decl db d (find_defs_by_name db.symbols workspace_id d.name) report in
    elim visited.1 [
      | err stopped ↦ (visited.0, err stopped)
      | ok report' ↦ visit_decls workspace_id ds visited.0 report'
    ]

unfoldable pub run_pass : Database → String → Database × Result CJoinReport
unfolding visit_decls collect_decls
run_pass db workspace_id =
    visit_decls workspace_id (collect_decls db workspace_id) db default_report

-- `apply_c_join_quietly`: the report and the error are dropped.
unfoldable pub apply_c_join_quietly : Database → Database
unfolding run_pass
apply_c_join_quietly db = (run_pass db primary_workspace_id).0
