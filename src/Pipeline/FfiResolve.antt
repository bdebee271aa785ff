-- ===== src/Pipeline/FfiResolve.antt =====
-- crates/standardoc-core/src/pipeline/ffi_resolve.rs: the imports of a foreign function are linked
-- with the one export of its name. The statements run outside a transaction. The maps of the source
-- are lists of groups in the order in which their keys first appear.
pub mod Groups
pub mod Consistent
pub mod Edges
pub mod Links
pub mod Pass
use standardoc.Base.{
  String, ℕ, suc, ◌+◌, Bool, true, false, ◌&&◌, Option, none, some, List, [], ◌∷◌, ◌++◌, length,
  find, eqb, ◌==◌, if◌then◌else◌,
}
use standardoc.Base.Text.{append}
use standardoc.Ir.Ffi.{FfiDirection}
use standardoc.Ir.Kinds.{EdgeKind, EdgeConfidence}
use standardoc.Ir.Edge.{RawEdge, ResolvedOrUnresolved}
use standardoc.Storage.Error.{Result, ok, err}
use standardoc.Storage.Serde.{Serde}
use standardoc.Storage.Database.{Database, EdgeRow}
use standardoc.Storage.Symbols.{points_to}
use standardoc.Storage.Edges.{insert_edge}
use standardoc.Storage.FfiSides.{BindingSide, fetch_all_sides}

pub record FfiResolveReport : Type 0 where
  pub matched : ℕ
  pub ambiguous_skipped : ℕ
  pub orphans_skipped : ℕ

abbrev pub default_report : FfiResolveReport
default_report = record { matched = 0; ambiguous_skipped = 0; orphans_skipped = 0 }

-- The sides of one `(abi, abi_name)`.
pub record Group : Type 0 where
  pub abi : String
  pub abi_name : String
  pub sides : List BindingSide

abbrev pub is_group_of : String → String → Group → Bool
is_group_of abi abi_name g = g.abi == abi && g.abi_name == abi_name

-- `entry((abi, abi_name)).or_default().push(side)`
unfoldable pub push_side : List Group → BindingSide → List Group
push_side [] side = record { abi = side.abi; abi_name = side.abi_name; sides = side ∷ [] } ∷ []
push_side (g ∷ groups) side =
    let rest = push_side groups side in
    if is_group_of side.abi side.abi_name g
    then record g { sides = g.sides ++ side ∷ [] } ∷ groups
    else g ∷ rest

unfoldable pub group_sides : List BindingSide → List Group → List Group
unfolding push_side
group_sides [] groups = groups
group_sides (side ∷ sides) groups = group_sides sides (push_side groups side)

-- `export_idx.get(&key)`
unfoldable pub get_group : List Group → String → String → Option Group
get_group groups abi abi_name = find (is_group_of abi abi_name) groups

abbrev pub ffi_attribute : String → String
ffi_attribute abi = append "ffi:" abi

-- `%"ffi:{abi}"%`
abbrev pub ffi_needle : String → String
ffi_needle abi = append "%\"ffi:" (append abi "\"%")

abbrev pub ffi_edge : BindingSide → BindingSide → String → RawEdge
ffi_edge importer exporter abi = record {
  from_fqdn = importer.fqdn;
  kind = EdgeKind.imports;
  to = ResolvedOrUnresolved.resolved exporter.fqdn;
  sites = [];
  attributes = ffi_attribute abi ∷ [];
  confidence = EdgeConfidence.inferred;
  receiver_type = none;
}

-- `like` is the operator of SQLite, the pattern first.
module _ (like : String → String → Bool) (serde : Serde) where
  abbrev pub is_ffi_edge : ℕ → ℕ → String → EdgeRow → Bool
  is_ffi_edge from_symbol_id to_symbol_id abi e =
      eqb e.from_symbol_id from_symbol_id
      && (points_to to_symbol_id e && (e.kind == "IMPORTS" && like (ffi_needle abi) e.attributes))

  unfoldable pub ffi_edge_exists : Database → ℕ → ℕ → String → Bool
  ffi_edge_exists db from_symbol_id to_symbol_id abi =
      elim (find (is_ffi_edge from_symbol_id to_symbol_id abi) db.edges) [
        | none ↦ false
        | some _ ↦ true
      ]

  -- The body of the loop over the importers.
  unfoldable pub link_importer :
      BindingSide
      → String
      → BindingSide
      → Database
      → FfiResolveReport
      → Database × Result FfiResolveReport
  unfolding ffi_edge_exists insert_edge
  link_importer exporter abi importer db report =
      if eqb importer.symbol_id exporter.symbol_id
      then (db, ok report)
      else if ffi_edge_exists db importer.symbol_id exporter.symbol_id abi
      then (db, ok report)
      else elim (insert_edge serde db importer.symbol_id (ffi_edge importer exporter abi)
          importer.workspace_id) [
            | err stopped ↦ (db, err stopped)
            | ok inserted ↦ (inserted.0, ok (record report { matched = suc report.matched }))
          ]

  unfoldable pub link_importers :
      BindingSide
      → String
      → List BindingSide
      → Database
      → FfiResolveReport
      → Database × Result FfiResolveReport
  unfolding link_importer
  link_importers exporter abi [] db report = (db, ok report)
  link_importers exporter abi (importer ∷ importers) db report =
      let linked = link_importer exporter abi importer db report in
      elim linked.1 [
        | err stopped ↦ (linked.0, err stopped)
        | ok report' ↦ link_importers exporter abi importers linked.0 report'
      ]

  -- The exports of the key of a group of imports.
  unfoldable pub link_group :
      Group → Option Group → Database → FfiResolveReport → Database × Result FfiResolveReport
  unfolding link_importers
  link_group importers none db report =
      (db, ok (record report { orphans_skipped = report.orphans_skipped + length importers.sides }))
  link_group importers (some exporters) db report = elim exporters.sides [
    | [] ↦ (
      db,
      ok (record report { ambiguous_skipped = report.ambiguous_skipped + length importers.sides }),
    )
    | exporter ∷ others ↦ elim others [
      | [] ↦ link_importers exporter importers.abi importers.sides db report
      | _ ∷ _ ↦ (
        db,
        ok (record report {
          ambiguous_skipped = report.ambiguous_skipped + length importers.sides;
        }),
      )
    ]
  ]

  unfoldable pub link_groups :
      List Group → List Group → Database → FfiResolveReport → Database × Result FfiResolveReport
  unfolding link_group get_group
  link_groups exports [] db report = (db, ok report)
  link_groups exports (g ∷ groups) db report =
      let linked = link_group g (get_group exports g.abi g.abi_name) db report in
      elim linked.1 [
        | err stopped ↦ (linked.0, err stopped)
        | ok report' ↦ link_groups exports groups linked.0 report'
      ]

  unfoldable pub run_ffi_pass : Database → Database × Result FfiResolveReport
  unfolding link_groups group_sides fetch_all_sides
  run_ffi_pass db =
      link_groups (group_sides (fetch_all_sides db FfiDirection.export_side) [])
        (group_sides (fetch_all_sides db FfiDirection.import_side) []) db default_report

  unfoldable pub apply_ffi_resolve_quietly : Database → Database
  unfolding run_ffi_pass
  apply_ffi_resolve_quietly db = (run_ffi_pass db).0
