-- ===== src/Pipeline/Diff.antt =====
-- crates/standardoc-core/src/pipeline/diff.rs: what a new extraction of a file changes.
pub mod Entries
pub mod Decisions
pub mod Partition
use mathlib.Core.Option
use standardoc.Base.{
  String, ℕ, Bool, true, false, ◌||◌, not, Option, none, some, List, [], ◌∷◌, ◌++◌, ◌==◌,
  if◌then◌else◌,
}
use standardoc.Base.Assoc
use standardoc.Ir.Symbol.{RawSymbol}
use standardoc.Storage.Database.{Database, SymbolRow}

pub record DbSymbolRow : Type 0 where
  pub id : ℕ
  pub fqdn : String
  pub body_hash : Option String

pub record DiffPlan : Type 0 where
  pub inserts : List RawSymbol
  pub modifications : List (ℕ × RawSymbol)
  pub position_updates : List (ℕ × RawSymbol)
  pub deletions : List ℕ

-- `SELECT id, fqdn, body_hash FROM symbols WHERE file_path = ?1`
unfoldable pub existing_rows : List SymbolRow → String → List DbSymbolRow
existing_rows [] file_path = []
existing_rows (s ∷ symbols) file_path =
    let rest = existing_rows symbols file_path in
    if s.file_path == file_path
    then record { id = s.id; fqdn = s.fqdn; body_hash = s.body_hash } ∷ rest
    else rest

unfoldable pub fetch_existing_symbols : Database → String → List DbSymbolRow
unfolding existing_rows
fetch_existing_symbols db file_path = existing_rows db.symbols file_path

unfoldable pub index_rows :
    List DbSymbolRow → List (String × DbSymbolRow) → List (String × DbSymbolRow)
index_rows [] by_fqdn = by_fqdn
index_rows (row ∷ rows) by_fqdn = index_rows rows (Assoc.insert by_fqdn row.fqdn row)

-- `new_hash == row.body_hash`
unfoldable pub same_hash : Option String → Option String → Bool
same_hash none none = true
same_hash none (some b) = false
same_hash (some a) none = false
same_hash (some a) (some b) = a == b

-- A symbol goes to the list that the row of its name, if there is one, decides.
unfoldable pub place_symbol : Option DbSymbolRow → DiffPlan → RawSymbol → DiffPlan
unfolding same_hash
place_symbol none plan sym = record plan { inserts = plan.inserts ++ sym ∷ [] }
place_symbol (some row) plan sym =
    if same_hash sym.body_hash row.body_hash
    then record plan { position_updates = plan.position_updates ++ (row.id, sym) ∷ [] }
    else record plan { modifications = plan.modifications ++ (row.id, sym) ∷ [] }

-- One round of the loop over the extracted symbols.
unfoldable pub plan_symbol : List (String × DbSymbolRow) → DiffPlan → RawSymbol → DiffPlan
unfolding place_symbol
plan_symbol by_fqdn plan sym = place_symbol (Assoc.get by_fqdn sym.fqdn) plan sym

unfoldable pub plan_symbols : List (String × DbSymbolRow) → DiffPlan → List RawSymbol → DiffPlan
unfolding plan_symbol
plan_symbols by_fqdn plan [] = plan
plan_symbols by_fqdn plan (sym ∷ syms) = plan_symbols by_fqdn (plan_symbol by_fqdn plan sym) syms

-- `seen_fqdns.contains(fqdn)`, for the set of the names of all extracted symbols
unfoldable pub is_extracted : List RawSymbol → String → Bool
is_extracted [] fqdn = false
is_extracted (sym ∷ syms) fqdn = sym.fqdn == fqdn || is_extracted syms fqdn

unfoldable pub missing_ids : List RawSymbol → List DbSymbolRow → List ℕ
unfolding is_extracted
missing_ids extracted [] = []
missing_ids extracted (row ∷ rows) =
    let rest = missing_ids extracted rows in
    if is_extracted extracted row.fqdn then rest else row.id ∷ rest

abbrev pub empty_plan : DiffPlan
empty_plan = record { inserts = []; modifications = []; position_updates = []; deletions = [] }

unfoldable pub diff_symbols : List DbSymbolRow → List RawSymbol → DiffPlan
unfolding index_rows plan_symbols missing_ids
diff_symbols existing extracted =
    let plan = plan_symbols (index_rows existing []) empty_plan extracted in
    record plan { deletions = plan.deletions ++ missing_ids extracted existing }
