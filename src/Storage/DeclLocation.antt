-- ===== src/Storage/DeclLocation.antt =====
-- crates/standardoc-core/src/storage/symbol_decl_location.rs, and the statement of
-- crates/standardoc-core/src/pipeline/c_join.rs that deletes a row of `symbols` directly.
use standardoc.Base.{
  ℕ, Bool, false, not, Option, none, some, List, [], ◌∷◌, find, keep_if, eqb, if◌then◌else◌,
}
use mathlib.Core.Option
use standardoc.Ir.Symbol.{SymbolLocation}
use standardoc.Storage.Error.{Result, ok, err}
use standardoc.Storage.Database.{
  Database, DeclLocationRow, EdgeRow, foreign_key_failed, check_failed, symbol_by_id,
}
use standardoc.Storage.Symbols.{points_to, delete_symbol_row}

abbrev pub is_decl_of : ℕ → DeclLocationRow → Bool
is_decl_of symbol_id l = eqb l.symbol_id symbol_id

-- `INSERT … ON CONFLICT(symbol_id) DO UPDATE`
unfoldable pub put_decl_location : List DeclLocationRow → DeclLocationRow → List DeclLocationRow
put_decl_location [] new = new ∷ []
put_decl_location (l ∷ ls) new =
    let rest = put_decl_location ls new in if is_decl_of new.symbol_id l then new ∷ ls else l ∷ rest

-- The statement, with its foreign key on `symbols(id)`.
unfoldable pub upsert_decl_location : Database → ℕ → SymbolLocation → Result Database
unfolding symbol_by_id put_decl_location
upsert_decl_location db symbol_id location = elim (symbol_by_id db.symbols symbol_id) [
  | none ↦ err foreign_key_failed
  | some _ ↦ ok (record db {
    decl_locations = put_decl_location db.decl_locations (record {
      symbol_id = symbol_id;
      file = location.file;
      start_line = location.start_line;
      end_line = location.end_line;
      start_col = location.start_col;
      end_col = location.end_col;
    });
  })
]

abbrev pub location_of_row : DeclLocationRow → SymbolLocation
location_of_row l = record {
  file = l.file;
  start_line = l.start_line;
  end_line = l.end_line;
  start_col = l.start_col;
  end_col = l.end_col;
}

unfoldable pub read_decl_location : Database → ℕ → Option SymbolLocation
read_decl_location db symbol_id =
    Option.map location_of_row (find (is_decl_of symbol_id) db.decl_locations)

unfoldable pub delete_decl_location : Database → ℕ → Database
delete_decl_location db symbol_id = record db {
  decl_locations = keep_if (λ l. not (is_decl_of symbol_id l)) db.decl_locations;
}

-- `ON DELETE SET NULL` on the edge leaves it without an end, which its `CHECK` refuses.
abbrev pub loses_its_end : ℕ → EdgeRow → Bool
loses_its_end id e = elim e.to_unresolved [ none ↦ points_to id e | some _ ↦ false ]

-- `DELETE FROM symbols WHERE id = ?1`
unfoldable pub delete_from_symbols : Database → ℕ → Result Database
unfolding delete_symbol_row
delete_from_symbols db id = elim (find (loses_its_end id) db.edges) [
  | some _ ↦ err check_failed
  | none ↦ ok (delete_symbol_row db id)
]
