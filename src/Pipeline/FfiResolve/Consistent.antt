-- ===== src/Pipeline/FfiResolve/Consistent.antt =====
-- The pass leaves the index consistent, and a second pass over one workspace writes nothing.
use standardoc.Base.{
  String, ℕ, ◌≡◌, refl, sym as inverse, ap, ap₂, subst, ◌∙◌, inl, inr, Bool, true, some, [], ◌∷◌,
  In, eqb_iff, keep_if, keep_if_sound, concat_map,
}
use standardoc.Ir.Ffi.{FfiDirection}
use standardoc.Storage.Error.{ok}
use standardoc.Storage.Serde.{Serde}
use standardoc.Storage.Database.{Database, SymbolRow}
use standardoc.Storage.Edges.{insert_edge, lookup_or_fallback}
use standardoc.Storage.FfiSides.{BindingSide, sides_of, has_direction, fetch_all_sides}
use standardoc.Storage.Index.{IsConsistent}
use standardoc.Storage.Index.Delete.{points_to-of}
use standardoc.Storage.Index.Edges.{insert_edge-IsIndexed}
use standardoc.Pipeline.FfiResolve.{
  ffi_edge, ffi_attribute, ffi_needle, is_ffi_edge, ffi_edge_exists, run_ffi_pass,
}
use standardoc.Pipeline.FfiResolve.Groups.{has_abi_name}
use standardoc.Pipeline.FfiResolve.Links.{
  IsPair, Linked, done, linked, fetch_all_sides-symbol, ffi_row, insert_ffi_edge-row, Linked-same,
  ffi_edge_exists_iff,
}
use standardoc.Pipeline.FfiResolve.Edges.{exporter-found}
use standardoc.Pipeline.FfiResolve.Pass.{run_ffi_pass-Linked, run_ffi_pass-IsLinked}

module _ (like : String → String → Bool) (serde : Serde) where
  Linked-IsConsistent :
      (stored a b : Database)
      → a.symbols ≡ stored.symbols
      → Linked like serde stored a b
      → IsConsistent a
      → IsConsistent b
  Linked-IsConsistent stored a b same done h = h
  Linked-IsConsistent stored a b same
        (linked {db' = a'} importer exporter id pair missing inserted rest) h =
      let (s, held, key, _, scoped) =
        fetch_all_sides-symbol stored FfiDirection.import_side importer pair.imported in
      let (symbols, _, _) = insert_ffi_edge-row serde a importer exporter a' id inserted in
      let moved =
        subst
          (λ (p : ℕ × String).
            insert_edge serde a p.0 (ffi_edge importer exporter importer.abi) p.1 ≡ ok (a', id))
          (ap₂ (λ i w. (i, w)) (inverse key) (inverse scoped)) inserted in
      Linked-IsConsistent stored a' b (symbols ∙ same) rest (
        insert_edge-IsIndexed serde [] a s (ffi_edge importer exporter importer.abi) a' id h
          (subst (In s) (inverse same) held) moved)

  -- The pass keeps the index consistent.
  pub run_ffi_pass-IsConsistent :
      (db : Database) → IsConsistent db → IsConsistent (run_ffi_pass like serde db).0
  run_ffi_pass-IsConsistent db =
      Linked-IsConsistent db db (run_ffi_pass like serde db).0 refl
        (run_ffi_pass-Linked like serde db).1

  -- The row that a link wrote is what the next pass looks for, where the name of the export is the
  -- export in the workspace of the import.
  ffi_row-found :
      (db : Database) (importer exporter : BindingSide)
      → (lookup_or_fallback db exporter.fqdn importer.workspace_id).0 ≡ some exporter.symbol_id
      → like (ffi_needle importer.abi) (serde.strings_to_string (ffi_attribute importer.abi ∷ []))
        ≡ true
      → is_ffi_edge like serde importer.symbol_id exporter.symbol_id importer.abi
          (ffi_row serde db importer exporter)
        ≡ true
  ffi_row-found db importer exporter at finds = simp (
    (eqb_iff importer.symbol_id importer.symbol_id).1 refl,
    points_to-of exporter.symbol_id (ffi_row serde db importer exporter) at,
    finds,
  )

  -- Every pair has its edge after the pass.
  pair-exists :
      (db : Database) (importer exporter : BindingSide)
      → IsConsistent db
      → like (ffi_needle importer.abi) (serde.strings_to_string (ffi_attribute importer.abi ∷ []))
        ≡ true
      → importer.workspace_id ≡ exporter.workspace_id
      → In exporter (fetch_all_sides db FfiDirection.export_side)
      → IsPair db importer exporter
      → ffi_edge_exists like serde
          (run_ffi_pass like serde db).0
          importer.symbol_id
          exporter.symbol_id
          importer.abi
        ≡ true
  pair-exists db importer exporter h finds together exported pair =
      let (e, held, how) = run_ffi_pass-IsLinked like serde db importer exporter pair in
      (ffi_edge_exists_iff like serde (run_ffi_pass like serde db).0 importer.symbol_id
          exporter.symbol_id importer.abi).1
        (
          e,
          held,
          elim how [
            | inl tested ↦ tested
            | inr (seen, same, written) ↦
                let at =
                  exporter-found like serde db seen importer exporter h same together exported in
                subst
                  (λ x.
                    is_ffi_edge like serde importer.symbol_id exporter.symbol_id importer.abi x
                    ≡ true)
                  (inverse written) (ffi_row-found seen importer exporter at finds)
          ],
        )

  fetch_all_sides-same :
      (a b : Database) (direction : FfiDirection)
      → b.symbols ≡ a.symbols
      → b.ffi_bindings ≡ a.ffi_bindings
      → fetch_all_sides b direction ≡ fetch_all_sides a direction
  unfolding fetch_all_sides
  fetch_all_sides-same a b direction symbols bindings =
      ap₂ (λ ss bs. concat_map (sides_of ss) (keep_if (has_direction direction) bs)) symbols
        bindings

  nothing_left :
      (stored a b : Database)
      → ((i x : BindingSide)
          → IsPair stored i x
          → ffi_edge_exists like serde a i.symbol_id x.symbol_id i.abi ≡ true)
      → Linked like serde stored a b
      → b ≡ a
  nothing_left stored a b each done = refl
  nothing_left stored a b each (linked importer exporter id pair missing inserted rest) =
      absurd (cc (each importer exporter pair, missing))

  -- In a consistent index, a second pass changes nothing, where the imports and the exports are in
  -- one workspace and the pattern of the ABI of each stored import finds the attribute that the
  -- encoder writes for it.
  pub run_ffi_pass_idem :
      (db : Database) (workspace_id : String)
      → IsConsistent db
      → ((i : BindingSide)
          → In i (fetch_all_sides db FfiDirection.import_side)
          → like (ffi_needle i.abi) (serde.strings_to_string (ffi_attribute i.abi ∷ [])) ≡ true)
      → ((s : SymbolRow) → In s db.symbols → s.workspace_id ≡ workspace_id)
      → (run_ffi_pass like serde (run_ffi_pass like serde db).0).0 ≡ (run_ffi_pass like serde db).0
  run_ffi_pass_idem db workspace_id h finds one =
      let after = (run_ffi_pass like serde db).0 in
      let (symbols, bindings) = Linked-same like serde db (run_ffi_pass-Linked like serde db).1 in
      nothing_left after after (run_ffi_pass like serde after).0
        (λ i x pair.
          let imported =
            subst (In i) (fetch_all_sides-same db after FfiDirection.import_side symbols bindings)
              pair.imported in
          let single =
            inverse (
              ap (keep_if (has_abi_name i.abi i.abi_name))
                (fetch_all_sides-same db after FfiDirection.export_side symbols bindings))
            ∙ pair.exported in
          let exported =
            (keep_if_sound (has_abi_name i.abi i.abi_name)
              (fetch_all_sides db FfiDirection.export_side) x
              (subst (In x) (inverse single) (inl refl))).0 in
          let (s, s_held, _, _, s_scoped) =
            fetch_all_sides-symbol db FfiDirection.import_side i imported in
          let (t, t_held, _, _, t_scoped) =
            fetch_all_sides-symbol db FfiDirection.export_side x exported in
          pair-exists db i x h (finds i imported)
            (inverse s_scoped ∙ one s s_held ∙ inverse (one t t_held) ∙ t_scoped) exported
            (record { imported = imported; exported = single; apart = pair.apart }))
        (run_ffi_pass-Linked like serde after).1
