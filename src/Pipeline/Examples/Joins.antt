-- ===== src/Pipeline/Examples/Joins.antt =====
-- Tests of the join pass: a header that declares `f` and `g`, and a source file that defines `f`.
use standardoc.Base.{
  String, ℕ, ◌≡◌, ◌↔◌, refl, subst, eq_iff, inl, inr, none, some, List, [], ◌∷◌, length, In, ◌+◌,
}
use standardoc.Ir.Kinds.{EdgeKind, EdgeConfidence}
use standardoc.Ir.Edge.{RawEdge, ResolvedOrUnresolved}
use standardoc.Storage.Error.{ok, err, StorageError}
use standardoc.Storage.Database.{Database, SymbolRow, EdgeRow}
use standardoc.Storage.Symbols.{upsert_row}
use standardoc.Storage.Edges.{insert_edge}
use standardoc.Storage.DeclLocation.{read_decl_location}
use standardoc.Storage.Index.{IsIndexed, IsConsistent}
use standardoc.Storage.Index.Symbols.{upsert_row-IsIndexed}
use standardoc.Storage.Index.Edges.{insert_edge-IsIndexed}
use standardoc.Pipeline.CJoin.{CJoinReport, collect_decls, find_defs_by_name, run_pass}
use standardoc.Pipeline.CJoin.Consistent.{run_pass-IsConsistent}
use standardoc.Pipeline.CJoin.Removed.{IsJoined, run_pass_iff}
use standardoc.Pipeline.CJoin.Errors.{run_pass-visits, run_pass_idem}
use standardoc.Pipeline.CJoin.Stops.{run_pass-stopped}
use standardoc.Pipeline.CJoin.Ends.{run_pass-ok}
use standardoc.Pipeline.Examples.{plain, empty_database, file_row, symbol_row}

abbrev c_symbol : ℕ → String → String → String → String → ℕ → SymbolRow
c_symbol id language_kind name fqdn file line = record (symbol_row id name fqdn file line "h" 1) {
  language = "c";
  language_kind = language_kind;
}

abbrev decl_f : SymbolRow
decl_f = c_symbol 1 "fn_decl" "f" "api.h::f" "api.h" 3

abbrev def_f : SymbolRow
def_f = c_symbol 2 "fn" "f" "api.c::f" "api.c" 9

abbrev decl_g : SymbolRow
decl_g = c_symbol 3 "fn_decl" "g" "api.h::g" "api.h" 4

abbrev pub with_rows : List SymbolRow → ℕ → Database
with_rows symbols next = record empty_database {
  files = file_row "api.h" ∷ file_row "api.c" ∷ [];
  symbols = symbols;
  next_symbol_id = next;
}

abbrev scanned : Database
scanned = with_rows (decl_f ∷ def_f ∷ decl_g ∷ []) 4

no_edges :
    (db : Database) (pending : List ℕ) → db.edges ≡ [] → IsIndexed pending db → IsConsistent db
no_edges db pending none_yet h = record {
  table = h.table;
  edges = λ e held. absurd (subst (In e) none_yet held);
}

-- Each row is written into a table that is consistent.
pub next_row :
    (db : Database) (s : SymbolRow) (db' : Database) (id : ℕ)
    → upsert_row db s ≡ ok (db', id)
    → db'.edges ≡ []
    → IsConsistent db
    → IsConsistent db'
next_row db s db' id written none_yet h =
    no_edges db' (id ∷ []) none_yet (upsert_row-IsIndexed [] db s db' id h written)

pub bare-IsConsistent : IsConsistent (with_rows [] 1)
bare-IsConsistent = record {
  table = record {
    below = λ s h. absurd h;
    id_is_key = λ s t h k e. absurd h;
    name_is_key = λ s t h k e f. absurd h;
  };
  edges = λ e h. absurd h;
}

scanned-IsConsistent : IsConsistent scanned
unfolding upsert_row
scanned-IsConsistent = next_row (with_rows (decl_f ∷ def_f ∷ []) 3) decl_g scanned 3 refl refl (
    next_row (with_rows (decl_f ∷ []) 2) def_f (with_rows (decl_f ∷ def_f ∷ []) 3) 2 refl refl
      (next_row (with_rows [] 1) decl_f (with_rows (decl_f ∷ []) 2) 1 refl refl bare-IsConsistent))

abbrev scanned_report : CJoinReport
scanned_report = record { joined = 1; orphans_kept = 1; ambiguous_skipped = 0 }

scanned_ends : (run_pass scanned "primary").1 ≡ ok scanned_report
unfolding run_pass
scanned_ends = refl

-- The prototype of `f` is where its definition says.
declared :
    read_decl_location (run_pass scanned "primary").0 2
    ≡ some (record { file = "api.h"; start_line = 3; end_line = 5; start_col = 0; end_col = 1 })
unfolding run_pass read_decl_location
declared = refl

run_pass-IsConsistent_example : IsConsistent (run_pass scanned "primary").0
run_pass-IsConsistent_example = run_pass-IsConsistent scanned "primary" scanned-IsConsistent

run_pass_iff_example :
    In decl_f (run_pass scanned "primary").0.symbols
    ↔ (In decl_f scanned.symbols × (IsJoined scanned "primary" decl_f → ⊥))
run_pass_iff_example =
    run_pass_iff scanned "primary" scanned_report decl_f scanned-IsConsistent scanned_ends

run_pass-visits_example : 1 + 1 + 0 ≡ length (collect_decls scanned "primary")
run_pass-visits_example = run_pass-visits scanned "primary" scanned_report scanned_ends

run_pass_idem_example :
    (again : CJoinReport) × (run_pass (run_pass scanned "primary").0 "primary"
      ≡ ((run_pass scanned "primary").0, ok again))
    × (again.joined ≡ 0)
run_pass_idem_example =
    run_pass_idem scanned "primary" scanned_report scanned-IsConsistent scanned_ends

run_pass-ok_example : (report : CJoinReport) × ((run_pass scanned "primary").1 ≡ ok report)
run_pass-ok_example =
    run_pass-ok scanned "primary" scanned-IsConsistent (λ s e held joined never. absurd never)

-- The definition of `f` refers to the prototype, as a call that was resolved before the join does.
abbrev reference : RawEdge
reference = record {
  from_fqdn = "api.c::f";
  kind = EdgeKind.calls;
  to = ResolvedOrUnresolved.unresolved "api.h::f";
  sites = [];
  attributes = [];
  confidence = EdgeConfidence.ambiguous;
  receiver_type = none;
}

abbrev resolved_reference : EdgeRow
resolved_reference = record {
  id = 1;
  from_symbol_id = 2;
  kind = "CALLS";
  to_symbol_id = some 1;
  to_unresolved = none;
  attributes = "[]";
  confidence = "ambiguous";
  receiver_type = none;
}

abbrev referenced : Database
referenced = record scanned { edges = resolved_reference ∷ []; next_edge_id = 2 }

referenced-IsConsistent : IsConsistent referenced
unfolding insert_edge
referenced-IsConsistent =
    insert_edge-IsIndexed plain [] scanned def_f reference referenced 1 scanned-IsConsistent
      (inr (inl refl)) refl

decl_f-IsJoined : IsJoined referenced "primary" decl_f
unfolding find_defs_by_name
decl_f-IsJoined = (refl, (2, refl))

run_pass-stopped_example :
    (stopped : StorageError) × ((run_pass referenced "primary").1 ≡ err stopped)
run_pass-stopped_example =
    run_pass-stopped referenced "primary" decl_f def_f resolved_reference referenced-IsConsistent
      (inl refl) decl_f-IsJoined (inl refl) refl (inr (inl refl)) refl
      (λ same. absurd (cc ((eq_iff "fn" "fn_decl").1 same)))
