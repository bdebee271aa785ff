-- ===== src/Pipeline/FfiResolve/Edges.antt =====
-- The edges of the tables that the pass's links are.
use standardoc.Base.{
  String, ◌≡◌, refl, sym as inverse, ap, ap₂, subst, ◌∙◌, inl, inr, ◌⊎◌, Bool, true, some, [], ◌∷◌,
  In, eqb_iff, Option-cases, keep_if_sound, ◌==◌, eqb, eq_iff,
}
use standardoc.Ir.Ffi.{FfiDirection}
use standardoc.Storage.Serde.{Serde}
use standardoc.Storage.Database.{Database, SymbolRow, EdgeRow, symbol_by_key}
use standardoc.Storage.Edges.{lookup_or_fallback}
use standardoc.Storage.FfiSides.{BindingSide, fetch_all_sides}
use standardoc.Storage.Index.{IsConsistent, symbol_by_key-some, symbol_by_key-none, and_iff}
use standardoc.Storage.Index.Delete.{points_to_iff}
use standardoc.Pipeline.FfiResolve.{ffi_attribute, ffi_needle, is_ffi_edge, run_ffi_pass}
use standardoc.Pipeline.FfiResolve.Groups.{has_abi_name}
use standardoc.Pipeline.FfiResolve.Links.{IsPair, fetch_all_sides-symbol}
use standardoc.Pipeline.FfiResolve.Pass.{run_ffi_pass-IsLinked}
use standardoc.Storage.Symbols.{points_to}

module _ (like : String → String → Bool) (serde : Serde) where
  -- In a consistent index, the name of a symbol stands for it in its workspace.
  lookup_or_fallback-own :
      (db seen : Database) (s : SymbolRow)
      → IsConsistent db
      → seen.symbols ≡ db.symbols
      → In s db.symbols
      → (lookup_or_fallback seen s.fqdn s.workspace_id).0 ≡ some s.id
  unfolding lookup_or_fallback
  lookup_or_fallback-own db seen s h same held =
      elim (Option-cases (symbol_by_key db.symbols s.workspace_id s.fqdn)) [
        | inl missing ↦
            absurd (symbol_by_key-none db.symbols s.workspace_id s.fqdn s missing held refl refl)
        | inr (t, found) ↦
            let (there, scoped, named) =
              symbol_by_key-some db.symbols s.workspace_id s.fqdn t found in
            let equal = h.table.name_is_key t s there held scoped named in
            rw (lookup_or_fallback, same, found) (ap (λ (x : SymbolRow). some x.id) equal)
      ]

  -- The name of an export of the workspace of the import stands for the exporting symbol.
  pub exporter-found :
      (db seen : Database) (importer exporter : BindingSide)
      → IsConsistent db
      → seen.symbols ≡ db.symbols
      → importer.workspace_id ≡ exporter.workspace_id
      → In exporter (fetch_all_sides db FfiDirection.export_side)
      → (lookup_or_fallback seen exporter.fqdn importer.workspace_id).0 ≡ some exporter.symbol_id
  exporter-found db seen importer exporter h same together exported =
      let (s, there, key, named, scoped) =
        fetch_all_sides-symbol db FfiDirection.export_side exporter exported in
      ap₂ (λ n w. (lookup_or_fallback seen n w).0) (inverse named) (together ∙ inverse scoped)
      ∙ lookup_or_fallback-own db seen s h same there
      ∙ ap some key

  -- The edge of a link, from the importing symbol to the exporting one, whose attributes the pattern
  -- of the ABI finds, or are the one that the pass writes.
  abbrev pub IsLink : BindingSide → BindingSide → EdgeRow → Type 0
  IsLink importer exporter e =
      (e.from_symbol_id ≡ importer.symbol_id)
      × (e.to_symbol_id ≡ some exporter.symbol_id)
      × (e.kind ≡ "IMPORTS")
      × ((like (ffi_needle importer.abi) e.attributes ≡ true)
          ⊎ (e.attributes ≡ serde.strings_to_string (ffi_attribute importer.abi ∷ [])))

  is_ffi_edge-IsLink :
      (importer exporter : BindingSide) (e : EdgeRow)
      → is_ffi_edge like serde importer.symbol_id exporter.symbol_id importer.abi e ≡ true
      → IsLink importer exporter e
  is_ffi_edge-IsLink importer exporter e tested =
      let (from, rest) = and_iff (eqb e.from_symbol_id importer.symbol_id) _ tested in
      let (to, rest') = and_iff (points_to exporter.symbol_id e) _ rest in
      let (kind, marked) = and_iff (e.kind == "IMPORTS") _ rest' in
      (
        (eqb_iff e.from_symbol_id importer.symbol_id).0 from,
        points_to_iff exporter.symbol_id e to,
        (eq_iff e.kind "IMPORTS").0 kind,
        inl marked,
      )

  -- In a consistent index, after the pass every import of another symbol of its workspace has an
  -- edge from its symbol to the symbol of the one export of its ABI and name.
  pub run_ffi_pass-IsLink :
      (db : Database) (importer exporter : BindingSide)
      → IsConsistent db
      → IsPair db importer exporter
      → importer.workspace_id ≡ exporter.workspace_id
      → (e : EdgeRow) × In e (run_ffi_pass like serde db).0.edges × IsLink importer exporter e
  run_ffi_pass-IsLink db importer exporter h pair together =
      let (e, held, how) = run_ffi_pass-IsLinked like serde db importer exporter pair in
      (
        e,
        held,
        elim how [
          | inl tested ↦ is_ffi_edge-IsLink importer exporter e tested
          | inr (seen, same, written) ↦
              let exported =
                (keep_if_sound (has_abi_name importer.abi importer.abi_name)
                  (fetch_all_sides db FfiDirection.export_side) exporter
                  (subst (In exporter) (inverse pair.exported) (inl refl))).0 in
              subst (IsLink importer exporter) (inverse written) (
                refl,
                exporter-found db seen importer exporter h same together exported,
                refl,
                inr refl,
              )
        ],
      )
