-- ===== src/Pipeline/Examples/Runs.antt =====
-- The commands of the pipeline at the workspace of two files.
use standardoc.Base.{
  inr, String, ℕ, ◌≡◌, ◌≢◌, ◌↔◌, ◌+◌, min, refl, Option, none, some, [], ◌∷◌, In, inl, arith, false,
}
use standardoc.Base.Assoc
use standardoc.Ir.Hash.{from_hex}
use standardoc.Base.Text.{text_eq}
use standardoc.Ir.Kinds.{Language, SourceOrigin}
use standardoc.Storage.Error.{ok}
use standardoc.Storage.Database.{Database, SymbolRow, EdgeRow}
use standardoc.Storage.Files.{FileInput, upsert_file, get_file}
use standardoc.Storage.Files.RoundTrip.{get_file-upsert_file}
use standardoc.Storage.Symbols.{
  upsert_row, SymbolInsertContext, insert_symbol, delete_symbol, optional_signature, row_of_symbol,
}
use standardoc.Storage.Symbols.Lookup.{IsWritten, insert_symbol-IsWritten}
use standardoc.Storage.Edges.{insert_edge, promote_unresolved_batch}
use standardoc.Storage.Index.Symbols.{insert_symbol-IsIndexed}
use standardoc.Storage.Index.Edges.{insert_edge-IsIndexed}
use standardoc.Storage.Index.Freed.{IsFreed, delete_symbol-IsFreed}
use standardoc.Storage.Index.Relink.{promote_unresolved_batch-upsert_row-delete_symbol}
use standardoc.Storage.Index.Promote.{promote_unresolved_batch-IsConsistent}
use standardoc.Pipeline.Batch.ParseError.{get_file-record_parse_error}
use standardoc.Storage.Index.{IsIndexed, IsConsistent}
use standardoc.Pipeline.Batch.{apply_upsert_file, apply_delete_file, record_parse_error}
use standardoc.Pipeline.Batch.Files.{apply_upsert_file-IsConsistent, apply_delete_file_iff}
use standardoc.Pipeline.Writer.{peer_path, u64_max, writer_loop}
use standardoc.Pipeline.Writer.Loop.{succeeded, writer_loop-IsConsistent}
use standardoc.Pipeline.Examples.{
  plain, sample_hash, callable, call_of_g, with_g, commands, file_row, edge_row, first_file,
  second_file, empty_database, with_first, with_both, symbol_row,
}

first_stored : apply_upsert_file plain (ok 7) empty_database first_file 1 "primary" ≡ ok with_first
unfolding apply_upsert_file Assoc.get
first_stored = refl

second_stored : apply_upsert_file plain (ok 7) with_first second_file 2 "primary" ≡ ok with_both
unfolding apply_upsert_file Assoc.get
second_stored = refl

empty-IsConsistent : IsConsistent empty_database
empty-IsConsistent = record {
  table = record {
    below = λ s h. absurd h;
    id_is_key = λ s t h k e. absurd h;
    name_is_key = λ s t h k e f. absurd h;
  };
  edges = λ e h. absurd h;
}

with_first-IsConsistent : IsConsistent with_first
with_first-IsConsistent =
    apply_upsert_file-IsConsistent plain (ok 7) empty_database first_file 1 "primary" with_first
      empty-IsConsistent first_stored

apply_upsert_file-IsConsistent_example : IsConsistent with_both
apply_upsert_file-IsConsistent_example =
    apply_upsert_file-IsConsistent plain (ok 7) with_first second_file 2 "primary" with_both
      with_first-IsConsistent second_stored

with_both-IsConsistent : IsConsistent with_both
with_both-IsConsistent =
    apply_upsert_file-IsConsistent plain (ok 7) with_first second_file 2 "primary" with_both
      with_first-IsConsistent second_stored

writer_loop-IsConsistent_example :
    (db' : Database) × (writer_loop plain (ok 7) (some empty_database) commands ≡ some db')
    × IsConsistent db'
    × (db'.revision ≡ min u64_max (0 + succeeded plain (ok 7) (some empty_database) commands))
writer_loop-IsConsistent_example =
    writer_loop-IsConsistent plain (ok 7) commands empty_database empty-IsConsistent (omega arith)

three_succeed : succeeded plain (ok 7) (some empty_database) commands ≡ 3
unfolding succeeded Assoc.get
three_succeed = refl

apply_delete_file_iff_example :
    In (symbol_row 1 "f" "a::f" "a.rs" 1 "h1" 1) (apply_delete_file with_both "b.rs").symbols ↔ (
      In (symbol_row 1 "f" "a::f" "a.rs" 1 "h1" 1) with_both.symbols
      × (◌≢◌ {A = String} "a.rs" "b.rs"))
apply_delete_file_iff_example =
    apply_delete_file_iff with_both "b.rs" (symbol_row 1 "f" "a::f" "a.rs" 1 "h1" 1)
      with_both-IsConsistent

-- The call of the deleted symbol falls back on its name.
demoted : (delete_symbol with_both 2).edges ≡ edge_row none (some "b::g") ∷ []
unfolding delete_symbol
demoted = refl

abbrev context : SymbolInsertContext
context = record {
  file_path = "b.rs";
  language = Language.rust;
  is_external = false;
  source_origin = SourceOrigin.workspace;
  revision = 2;
  workspace_id = "primary";
}

abbrev with_file : Database
with_file = record with_first { files = file_row "a.rs" ∷ file_row "b.rs" ∷ [] }

g_inserted :
    insert_symbol plain with_file (callable "g" "b::g" "b.rs" 5 "h2") context ≡ ok (with_g, 2)
unfolding insert_symbol
g_inserted = refl

insert_symbol-IsWritten_example :
    (json : Option String) × (optional_signature plain none ≡ ok json)
    × IsWritten with_file
        (row_of_symbol plain (callable "g" "b::g" "b.rs" 5 "h2") context json 0)
        with_g
        2
insert_symbol-IsWritten_example =
    insert_symbol-IsWritten plain with_file (callable "g" "b::g" "b.rs" 5 "h2") context with_g 2
      g_inserted

with_g-IsIndexed : IsIndexed (2 ∷ []) with_g
with_g-IsIndexed =
    insert_symbol-IsIndexed plain [] with_file (callable "g" "b::g" "b.rs" 5 "h2") context with_g 2
      (record { table = with_first-IsConsistent.table; edges = with_first-IsConsistent.edges })
      g_inserted

promote_unresolved_batch-IsConsistent_example :
    IsConsistent (promote_unresolved_batch with_g (2 ∷ []))
promote_unresolved_batch-IsConsistent_example =
    promote_unresolved_batch-IsConsistent with_g (2 ∷ []) with_g-IsIndexed

promoted : promote_unresolved_batch with_g (2 ∷ []) ≡ with_both
unfolding promote_unresolved_batch
promoted = refl

abbrev g_row : SymbolRow
g_row = symbol_row 2 "g" "b::g" "b.rs" 5 "h2" 2

delete_symbol-IsFreed_example :
    IsConsistent (delete_symbol with_both 2)
    × ((t : SymbolRow)
        → In t (delete_symbol with_both 2).symbols ↔ (In t with_both.symbols × (t.id ≢ 2)))
    × ((x : EdgeRow)
        → In x (delete_symbol with_both 2).edges
          ↔ ((e : EdgeRow) × In e with_both.edges × IsFreed 2 "b::g" e x))
delete_symbol-IsFreed_example =
    delete_symbol-IsFreed [] with_both g_row with_both-IsConsistent (inr (inl refl))

-- The call is stored once more, now with its target.
abbrev called_twice : Database
called_twice = record with_both {
  edges = edge_row (some 2) none ∷ record (edge_row (some 2) none) { id = 2 } ∷ [];
  next_edge_id = 3;
}

insert_edge-IsIndexed_example : IsConsistent called_twice
unfolding insert_edge
insert_edge-IsIndexed_example =
    insert_edge-IsIndexed plain [] with_both (symbol_row 1 "f" "a::f" "a.rs" 1 "h1" 1) call_of_g
      called_twice 2 with_both-IsConsistent (inl refl) refl

abbrev stored_input : FileInput
stored_input = record {
  path = "a.rs";
  content_hash = sample_hash;
  language = Language.rust;
  byte_size = 120;
  last_scanned = 7;
  last_scan_error = none;
  is_external = false;
}

get_file-upsert_file_example :
    get_file (record empty_database { files = file_row "a.rs" ∷ [] }) "a.rs"
    ≡ ok (some stored_input)
unfolding upsert_file from_hex
get_file-upsert_file_example =
    get_file-upsert_file empty_database stored_input
      (record empty_database { files = file_row "a.rs" ∷ [] }) refl refl

-- The file of the first scan no longer parses.
abbrev with_error : Database
with_error = record with_first {
  files = record (file_row "a.rs") { last_scanned = 9; last_scan_error = some "bad" } ∷ [];
}

get_file-record_parse_error_example :
    (now : ℕ) × (ok 9 ≡ ok now)
    × (get_file with_error "a.rs"
        ≡ ok (some (record stored_input { last_scan_error = some "bad"; last_scanned = now })))
unfolding get_file record_parse_error text_eq
get_file-record_parse_error_example =
    get_file-record_parse_error (ok 9) with_first "a.rs" Language.rust "bad" stored_input with_error
      refl refl

peer_scoped : peer_path "lib" "a.rs" ≡ "ws:lib:a.rs"
unfolding peer_path
peer_scoped = refl

-- The second symbol, deleted and written again under the next id.
abbrev rewritten : Database
rewritten = record with_g {
  symbols = symbol_row 1 "f" "a::f" "a.rs" 1 "h1" 1 ∷ symbol_row 3 "g" "b::g" "b.rs" 8 "h5" 4 ∷ [];
  next_symbol_id = 4;
}

promote_unresolved_batch-upsert_row-delete_symbol_example :
    In (edge_row (some 3) none) (promote_unresolved_batch rewritten (3 ∷ [])).edges
unfolding delete_symbol upsert_row
promote_unresolved_batch-upsert_row-delete_symbol_example =
    promote_unresolved_batch-upsert_row-delete_symbol with_both with_both-IsConsistent
      (symbol_row 2 "g" "b::g" "b.rs" 5 "h2" 2) (symbol_row 1 "f" "a::f" "a.rs" 1 "h1" 1)
      (edge_row (some 2) none) (inr (inl refl)) (inl refl) (inl refl) refl refl
      (λ same. absurd (omega (arith, same))) (symbol_row 0 "g" "b::g" "b.rs" 8 "h5" 4) rewritten 3
      refl refl refl
