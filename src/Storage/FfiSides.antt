-- ===== src/Storage/FfiSides.antt =====
-- crates/standardoc-core/src/storage/symbol_ffi_binding.rs: the sides of the bindings of a direction.
use standardoc.Base.{String, ℕ, Bool, List, map, keep_if, concat_map, ◌==◌}
use standardoc.Ir.Ffi.{FfiDirection, direction_as_slug}
use standardoc.Storage.Database.{Database, SymbolRow, FfiBindingRow, has_id}

pub record BindingSide : Type 0 where
  pub symbol_id : ℕ
  pub fqdn : String
  pub abi_name : String
  pub abi : String
  pub workspace_id : String

abbrev pub side_of : FfiBindingRow → SymbolRow → BindingSide
side_of b s = record {
  symbol_id = b.symbol_id;
  fqdn = s.fqdn;
  abi_name = b.abi_name;
  abi = b.abi;
  workspace_id = s.workspace_id;
}

-- `JOIN symbols s ON s.id = b.symbol_id`
abbrev pub sides_of : List SymbolRow → FfiBindingRow → List BindingSide
sides_of symbols b = map (side_of b) (keep_if (has_id b.symbol_id) symbols)

abbrev pub has_direction : FfiDirection → FfiBindingRow → Bool
has_direction direction b = b.direction == direction_as_slug direction

-- The rows come in the order of the table.
unfoldable pub fetch_all_sides : Database → FfiDirection → List BindingSide
unfolding direction_as_slug
fetch_all_sides db direction =
    concat_map (sides_of db.symbols) (keep_if (has_direction direction) db.ffi_bindings)
