-- ===== src/Storage/Symbols.antt =====
-- crates/standardoc-core/src/storage/symbols.rs, with `signature_to_json` of conv.rs.
pub mod Lookup
use Prim.Native.Nat.{Ordering}
use standardoc.Base.{
  String, ℕ, suc, Bool, true, false, ◌&&◌, not, Option, none, some, List, [], ◌∷◌, ◌++◌, map,
  keep_if, eqb, ◌==◌, if◌then◌else◌,
}
use mathlib.Core.Option
use standardoc.Ir.Kinds.{Language, SourceOrigin}
use standardoc.Ir.Bridge.{BridgeKind, BridgeKindError, try_validate}
use standardoc.Ir.Symbol.{Signature, RawSymbol, SymbolLocation, TypeRef}
use standardoc.Storage.Error.{Result, ok, err, StorageError, ◌>>=◌, ◌>>◌}
use standardoc.Storage.Serde.{Serde}
use standardoc.Storage.Conv.{
  decl_kind_to_sql_text, entry_point_to_sql_text, kind_to_sql_text, language_to_sql_text,
  source_origin_to_sql_text, visibility_to_sql_text,
}
use standardoc.Storage.Database.{
  Database, FileRow, SymbolRow, EdgeRow, EdgeSiteRow, DocumentRow, FfiBindingRow, DeclLocationRow,
  to_i64, foreign_key_failed, has_key, has_id, symbol_by_key, symbol_by_id, file_by_path,
}

pub record SymbolInsertContext : Type 0 where
  pub file_path : String
  pub language : Language
  pub is_external : Bool
  pub source_origin : SourceOrigin
  pub revision : ℕ
  pub workspace_id : String

-- `bridge.try_validate()?`
unfoldable pub check_bridge : BridgeKind → Result (Unit {0})
unfolding try_validate
check_bridge slug = elim (try_validate slug) [
  | none ↦ ok tt
  | some (BridgeKindError.invalid s) ↦ err (StorageError.bridge_kind_invalid s)
]

unfoldable pub check_bridges : List BridgeKind → Result (Unit {0})
unfolding check_bridge
check_bridges [] = ok tt
check_bridges (b ∷ bs) = check_bridge b >> check_bridges bs

unfoldable pub signature_to_json : Serde → Signature → Result String
unfolding check_bridges
signature_to_json serde sig = do check_bridges sig.meta.exposed_via; serde.signature_to_string sig

-- `.map(signature_to_json).transpose()`
unfoldable pub optional_signature : Serde → Option Signature → Result (Option String)
unfolding signature_to_json
optional_signature serde none = ok none
optional_signature serde (some sig) = do json ← signature_to_json serde sig; ok (some json)

-- The columns that the statement writes, in a row of the given id.
unfoldable pub row_of_symbol :
    Serde → RawSymbol → SymbolInsertContext → Option String → ℕ → SymbolRow
unfolding decl_kind_to_sql_text entry_point_to_sql_text kind_to_sql_text language_to_sql_text
    source_origin_to_sql_text visibility_to_sql_text
row_of_symbol serde symbol ctx signature_json id = record {
  id = id;
  fqdn = symbol.fqdn;
  name = symbol.name;
  kind = kind_to_sql_text symbol.kind;
  language_kind = symbol.language_kind;
  language = language_to_sql_text ctx.language;
  module_name = symbol.module_name;
  visibility = visibility_to_sql_text symbol.visibility;
  file_path = ctx.file_path;
  start_line = symbol.location.start_line;
  end_line = symbol.location.end_line;
  start_col = symbol.location.start_col;
  end_col = symbol.location.end_col;
  signature_json = signature_json;
  body_hash = symbol.body_hash;
  decl_kind = Option.map decl_kind_to_sql_text symbol.decl_kind;
  implements_trait = symbol.implements_trait;
  receiver_type = Option.map (λ (t : TypeRef). t.display) symbol.receiver_type;
  entry_point = Option.map entry_point_to_sql_text symbol.entry_point;
  is_external = ctx.is_external;
  source_origin = source_origin_to_sql_text ctx.source_origin;
  last_modified_revision = to_i64 ctx.revision;
  flags = serde.strings_to_string symbol.flags;
  workspace_id = ctx.workspace_id;
}

-- `ON CONFLICT(workspace_id, fqdn) DO UPDATE`: every column but the id and the key is overwritten.
unfoldable pub replace_row : List SymbolRow → SymbolRow → List SymbolRow
replace_row symbols new =
    map
      (λ (s : SymbolRow).
        if has_key new.workspace_id new.fqdn s then record new { id = s.id } else s)
      symbols

-- The statement, with its foreign key on `files(path)`. The id of the row is returned.
unfoldable pub upsert_row : Database → SymbolRow → Result (Database × ℕ)
unfolding replace_row symbol_by_key file_by_path
upsert_row db new = elim (file_by_path db.files new.file_path) [
  | none ↦ err foreign_key_failed
  | some _ ↦ elim (symbol_by_key db.symbols new.workspace_id new.fqdn) [
    | some old ↦ ok (record db { symbols = replace_row db.symbols new }, old.id)
    | none ↦ ok (
      record db {
        symbols = db.symbols ++ record new { id = db.next_symbol_id } ∷ [];
        next_symbol_id = suc db.next_symbol_id;
      },
      db.next_symbol_id,
    )
  ]
]

unfoldable pub insert_symbol :
    Serde → Database → RawSymbol → SymbolInsertContext → Result (Database × ℕ)
unfolding optional_signature row_of_symbol upsert_row
insert_symbol serde db symbol ctx = do
  signature_json ← optional_signature serde symbol.signature
  upsert_row db (row_of_symbol serde symbol ctx signature_json 0)

unfoldable pub update_symbol_positions : Database → ℕ → SymbolLocation → ℕ → Database
update_symbol_positions db id location revision = record db {
  symbols =
      map
        (λ (s : SymbolRow).
          if has_id id s
          then record s {
            start_line = location.start_line;
            end_line = location.end_line;
            start_col = location.start_col;
            end_col = location.end_col;
            last_modified_revision = to_i64 revision;
          }
          else s)
        db.symbols;
}

-- `to_symbol_id = ?1`
abbrev pub points_to : ℕ → EdgeRow → Bool
points_to id e = elim e.to_symbol_id [ none ↦ false | some t ↦ eqb t id ]

-- The first statement: edges that enter the symbol fall back on its name.
unfoldable pub demote_edge : ℕ → Option String → EdgeRow → EdgeRow
demote_edge id fqdn e =
    if points_to id e then record e { to_symbol_id = none; to_unresolved = fqdn } else e

abbrev pub leaves : ℕ → EdgeRow → Bool
leaves id e = eqb e.from_symbol_id id

abbrev pub has_edge : List EdgeRow → ℕ → Bool
has_edge [] id = false
has_edge (e ∷ es) id = let rest = has_edge es id in if eqb e.id id then true else rest

-- `DELETE FROM edges WHERE …`, with the cascade to `edge_sites`.
unfoldable pub delete_edges : Database → (EdgeRow → Bool) → Database
delete_edges db doomed =
    let kept = keep_if (λ e. not (doomed e)) db.edges in
    record db {
      edges = kept;
      edge_sites = keep_if (λ (s : EdgeSiteRow). has_edge kept s.edge_id) db.edge_sites;
    }

-- The second statement, with the cascades to `edges`, `documents`, `symbol_ffi_binding` and
-- `symbol_decl_location`.
unfoldable pub delete_symbol_row : Database → ℕ → Database
unfolding delete_edges
delete_symbol_row db id =
    let db' = delete_edges db (leaves id) in
    record db' {
      symbols = keep_if (λ s. not (has_id id s)) db'.symbols;
      documents = keep_if (λ (d : DocumentRow). not (eqb d.symbol_id id)) db'.documents;
      ffi_bindings = keep_if (λ (b : FfiBindingRow). not (eqb b.symbol_id id)) db'.ffi_bindings;
      decl_locations =
          keep_if (λ (l : DeclLocationRow). not (eqb l.symbol_id id)) db'.decl_locations;
    }

unfoldable pub delete_symbol : Database → ℕ → Database
unfolding demote_edge delete_symbol_row symbol_by_id
delete_symbol db id =
    let fqdn = Option.map (λ (s : SymbolRow). s.fqdn) (symbol_by_id db.symbols id) in
    delete_symbol_row (record db { edges = map (demote_edge id fqdn) db.edges }) id
