-- ===== src/Pipeline/FfiResolve/Pass.antt =====
-- The loops of the pass make such links, and leave none out.
use standardoc.Base.{
  String, ◌≡◌, ◌≢◌, refl, sym as inverse, ap, ap₂, subst, ◌∙◌, ◌⊎◌, inl, inr, Bool, true, false,
  List, [], ◌∷◌, In, In-append_right, keep_if, eqb, eqb_iff, Bool-cases, Option-cases,
}
use standardoc.Ir.Ffi.{FfiDirection}
use standardoc.Storage.Error.{Result, ok}
use standardoc.Storage.Serde.{Serde}
use standardoc.Storage.Database.{Database, EdgeRow}
use standardoc.Storage.Edges.{insert_edge}
use standardoc.Storage.FfiSides.{BindingSide, fetch_all_sides}
use standardoc.Pipeline.FfiResolve.{
  FfiResolveReport, Group, default_report, ffi_edge, is_ffi_edge, ffi_edge_exists, link_importer,
  link_importers, link_group, link_groups, run_ffi_pass, group_sides, get_group,
}
use standardoc.Pipeline.FfiResolve.Groups.{
  has_abi_name, get_group-group_sides, get_group-none, group_sides-IsGroup, group_sides-IsGrouped,
}
use standardoc.Pipeline.FfiResolve.Links.{
  IsPair, Linked, done, linked, fetch_all_sides-symbol, ffi_row, insert_ffi_edge-row,
  insert_ffi_edge-ok, Linked-trans, Linked-same, ffi_edge_exists_iff, Linked-edges,
}

module _ (like : String → String → Bool) (serde : Serde) (stored : Database) where
  -- The pair is linked: there was an edge of its ABI between the two, or one was written, with the
  -- end that the name of the export has in the workspace of the import.
  abbrev pub IsLinked : Database → BindingSide → BindingSide → Type 0
  IsLinked db importer exporter =
      (e : EdgeRow) × In e db.edges
      × ((is_ffi_edge like serde importer.symbol_id exporter.symbol_id importer.abi e ≡ true)
          ⊎ ((seen : Database) × (seen.symbols ≡ stored.symbols)
              × (e ≡ ffi_row serde seen importer exporter)))

  IsLinked-later :
      (a b : Database) (importer exporter : BindingSide)
      → Linked like serde stored a b
      → IsLinked a importer exporter
      → IsLinked b importer exporter
  IsLinked-later a b importer exporter links (e, held, how) =
      (e, Linked-edges like serde stored e links held, how)

  -- What a step of the pass that visits these importers does.
  abbrev Visits :
      Database → Database × Result FfiResolveReport → BindingSide → List BindingSide → Type 0
  Visits db after exporter importers =
      ((report : FfiResolveReport) × (after.1 ≡ ok report))
      × Linked like serde stored db after.0
      × ((i : BindingSide)
          → In i importers
          → i.symbol_id ≢ exporter.symbol_id
          → IsLinked after.0 i exporter)

  -- An import of the key whose one export is the given one.
  abbrev IsImporter : String → BindingSide → BindingSide → Type 0
  IsImporter abi exporter i =
      In i (fetch_all_sides stored FfiDirection.import_side)
      × (i.abi ≡ abi)
      × (keep_if (has_abi_name i.abi i.abi_name) (fetch_all_sides stored FfiDirection.export_side)
          ≡ exporter ∷ [])

  link_importer-Visits :
      (exporter : BindingSide) (abi : String) (i : BindingSide) (db : Database)
      (report : FfiResolveReport)
      → db.symbols ≡ stored.symbols
      → IsImporter abi exporter i
      → Visits db (link_importer like serde exporter abi i db report) exporter (i ∷ [])
  unfolding link_importer
  link_importer-Visits exporter abi i db report same (imported, at, exported) =
      elim (Bool-cases (eqb i.symbol_id exporter.symbol_id)) [
        | inl itself ↦
            rw (link_importer, itself)
              (
                (report, refl),
                done,
                λ j there apart. elim there [
                  | inl e ↦ absurd (
                      apart (
                        ap (λ (x : BindingSide). x.symbol_id) e
                        ∙ (eqb_iff i.symbol_id exporter.symbol_id).0 itself))
                  | inr never ↦ absurd never
                ],
              )
        | inr other ↦
            let test = is_ffi_edge like serde i.symbol_id exporter.symbol_id in
            elim (Bool-cases (ffi_edge_exists like serde db i.symbol_id exporter.symbol_id abi)) [
              | inl found ↦
                  let (e, held, tested) =
                    (ffi_edge_exists_iff like serde db i.symbol_id exporter.symbol_id abi).0
                      found in
                  rw (link_importer, other, found)
                    (
                      (report, refl),
                      done,
                      λ j k apart. elim k [
                        | inl equal ↦
                            subst (λ x. IsLinked db x exporter) (inverse equal)
                              (e, held, inl (subst (λ a. test a e ≡ true) (inverse at) tested))
                        | inr never ↦ absurd never
                      ],
                    )
              | inr missing ↦
                  let (s, held, key, _, _) =
                    fetch_all_sides-symbol stored FfiDirection.import_side i imported in
                  let (db', id, inserted) =
                    insert_ffi_edge-ok serde db i exporter s (subst (In s) (inverse same) held)
                      key in
                  let (_, _, edges) = insert_ffi_edge-row serde db i exporter db' id inserted in
                  let inserted' =
                    subst
                      (λ a.
                        insert_edge serde db i.symbol_id (ffi_edge i exporter a) i.workspace_id
                        ≡ ok (db', id))
                      at inserted in
                  let pair : IsPair stored i exporter = record {
                    imported = imported;
                    exported = exported;
                    apart = λ e. absurd (cc ((eqb_iff i.symbol_id exporter.symbol_id).1 e, other));
                  } in
                  let absent : ffi_edge_exists like serde db i.symbol_id exporter.symbol_id i.abi
                      ≡ false =
                    rw at missing in
                  rw (link_importer, other, missing, inserted')
                    (
                      (_, refl),
                      linked i exporter id pair absent inserted done,
                      λ j k apart. elim k [
                        | inl equal ↦
                            subst (λ x. IsLinked db' x exporter) (inverse equal)
                              (
                                ffi_row serde db i exporter,
                                subst (In (ffi_row serde db i exporter)) (inverse edges)
                                    (In-append_right _ db.edges _ (inl refl)),
                                inr (db, same, refl),
                              )
                        | inr never ↦ absurd never
                      ],
                    )
            ]
      ]

  link_importers-Visits :
      (exporter : BindingSide) (abi : String) (importers : List BindingSide) (db : Database)
      (report : FfiResolveReport)
      → db.symbols ≡ stored.symbols
      → ((i : BindingSide) → In i importers → IsImporter abi exporter i)
      → Visits db (link_importers like serde exporter abi importers db report) exporter importers
  unfolding link_importers
  link_importers-Visits exporter abi [] db report same each =
      ((report, refl), done, λ i never. absurd never)
  link_importers-Visits exporter abi (i ∷ importers) db report same each =
      let ((report', ended), links, visited) =
        link_importer-Visits exporter abi i db report same (each i (inl refl)) in
      let after = (link_importer like serde exporter abi i db report).0 in
      let (ended', links', visited') =
        link_importers-Visits exporter abi importers after report'
          ((Linked-same like serde stored links).0 ∙ same) (λ j k. each j (inr k)) in
      rw (link_importers, ended)
        (
          ended',
          Linked-trans like serde stored links links',
          λ j there apart. elim there [
            | inl e ↦ IsLinked-later after _ j exporter links' (visited j (inl e) apart)
            | inr later ↦ visited' j later apart
          ],
        )

  abbrev pub exports : List BindingSide
  exports = fetch_all_sides stored FfiDirection.export_side

  abbrev pub imports : List BindingSide
  imports = fetch_all_sides stored FfiDirection.import_side

  -- What a step does that visits groups of imports.
  abbrev VisitsAll : Database → Database × Result FfiResolveReport → (BindingSide → Type 0) → Type 0
  VisitsAll db after IsSeen =
      ((report : FfiResolveReport) × (after.1 ≡ ok report))
      × Linked like serde stored db after.0
      × ((i x : BindingSide) → IsSeen i → IsPair stored i x → IsLinked after.0 i x)

  -- A key that has no single export links nothing.
  skipped :
      (g : Group) (db : Database) (report : FfiResolveReport)
      → ((x : BindingSide) → keep_if (has_abi_name g.abi g.abi_name) exports ≢ x ∷ [])
      → ((i : BindingSide) → In i g.sides → (i.abi ≡ g.abi) × (i.abi_name ≡ g.abi_name))
      → VisitsAll db (db, ok report) (λ i. In i g.sides)
  skipped g db report several keyed = (
    (report, refl),
    done,
    λ i x held pair. absurd (
        several x (
          inverse
            (ap₂ (λ a n. keep_if (has_abi_name a n) exports) (keyed i held).0 (keyed i held).1)
          ∙ pair.exported)),
  )

  sides_cases :
      (xs : List BindingSide)
      → (xs ≡ [])
        ⊎ (((x : BindingSide) × (xs ≡ x ∷ []))
            ⊎ ((x y : BindingSide) × (ys : List BindingSide) × (xs ≡ x ∷ y ∷ ys)))
  sides_cases [] = inl refl
  sides_cases (x ∷ []) = inr (inl (x, refl))
  sides_cases (x ∷ y ∷ ys) = inr (inr (x, y, ys, refl))

  link_group-Visits :
      (g : Group) (db : Database) (report : FfiResolveReport)
      → db.symbols ≡ stored.symbols
      → In g (group_sides imports [])
      → VisitsAll db
          (link_group like serde g (get_group (group_sides exports []) g.abi g.abi_name) db report)
          (λ i. In i g.sides)
  unfolding link_group
  link_group-Visits g db report same held =
      let each = group_sides-IsGroup imports g held in
      let keyed : (i : BindingSide) → In i g.sides → (i.abi ≡ g.abi) × (i.abi_name ≡ g.abi_name) =
        λ i k. ((each i k).1, (each i k).2) in
      elim (Option-cases (get_group (group_sides exports []) g.abi g.abi_name)) [
        | inl missing ↦
            let none_left = get_group-none exports g.abi g.abi_name missing in
            rw (link_group, missing) (skipped g db _ (λ x one. absurd (cc (none_left, one))) keyed)
        | inr (found, e) ↦
            let sides = get_group-group_sides exports g.abi g.abi_name found e in
            elim (sides_cases found.sides) [
              | inl empty ↦
                  rw (link_group, e, empty)
                    (skipped g db _ (λ x one. absurd (cc (sides, empty, one))) keyed)
              | inr rest ↦ elim rest [
                | inr (a, b, others, two) ↦
                    rw (link_group, e, two)
                      (skipped g db _ (λ x one. absurd (cc (sides, two, one))) keyed)
                | inl (exporter, single) ↦
                    let filtered : keep_if (has_abi_name g.abi g.abi_name) exports ≡ exporter ∷ [] =
                      inverse sides ∙ single in
                    let at : (i : BindingSide)
                        → In i g.sides
                        → keep_if (has_abi_name i.abi i.abi_name) exports ≡ exporter ∷ [] =
                      λ i k.
                        ap₂ (λ a n. keep_if (has_abi_name a n) exports) (keyed i k).0 (keyed i k).1
                        ∙ filtered in
                    let (ended, links, visited) =
                      link_importers-Visits exporter g.abi g.sides db report same
                        (λ i k. ((each i k).0, (keyed i k).0, at i k)) in
                    rw (link_group, e, single)
                      (
                        ended,
                        links,
                        λ i x k pair.
                            let equal : exporter ≡ x = cc (at i k, pair.exported) in
                            subst
                              (IsLinked
                                (link_importers like serde exporter g.abi g.sides db report).0 i)
                              equal
                              (visited i k (
                                subst (λ y. i.symbol_id ≢ y.symbol_id) (inverse equal) pair.apart)),
                      )
              ]
            ]
      ]

  link_groups-Visits :
      (groups : List Group) (db : Database) (report : FfiResolveReport)
      → db.symbols ≡ stored.symbols
      → ((g : Group) → In g groups → In g (group_sides imports []))
      → VisitsAll db
          (link_groups like serde (group_sides exports []) groups db report)
          (λ i. (g : Group) × In g groups × In i g.sides)
  unfolding link_groups
  link_groups-Visits [] db report same sub = ((report, refl), done, λ i x h pair. absurd h.1)
  link_groups-Visits (g ∷ groups) db report same sub =
      let ((report', ended), links, visited) =
        link_group-Visits g db report same (sub g (inl refl)) in
      let after =
        (link_group like serde g (get_group (group_sides exports []) g.abi g.abi_name) db
          report).0 in
      let (ended', links', visited') =
        link_groups-Visits groups after report' ((Linked-same like serde stored links).0 ∙ same)
          (λ h k. sub h (inr k)) in
      rw (link_groups, ended)
        (
          ended',
          Linked-trans like serde stored links links',
          λ i x (h, there, k) pair. elim there [
            | inl e ↦
                IsLinked-later after _ i x links'
                  (visited i x (subst (λ (y : Group). In i y.sides) e k) pair)
            | inr later ↦ visited' i x (h, later, k) pair
          ],
        )

module _ (like : String → String → Bool) (serde : Serde) (db : Database) where
  visits :
      VisitsAll like serde db db
        (run_ffi_pass like serde db)
        (λ i. (g : Group) × In g (group_sides (imports like serde db) []) × In i g.sides)
  unfolding run_ffi_pass
  visits =
      link_groups-Visits like serde db (group_sides (imports like serde db) []) db default_report
        refl (λ g k. k)

  -- The pass never stops at an error. What it writes is a sequence of links, each of an import with
  -- the one export of its ABI and name, and between two symbols that no such link joined yet.
  pub run_ffi_pass-Linked :
      ((report : FfiResolveReport) × ((run_ffi_pass like serde db).1 ≡ ok report))
      × Linked like serde db db (run_ffi_pass like serde db).0
  run_ffi_pass-Linked = (visits.0, visits.1)

  -- The pass links every import with the one export of its ABI and name, unless both are one symbol:
  -- after it there is an edge of that ABI between the two, or the edge that it wrote, whose end is
  -- what the name of the export stands for in the workspace of the import.
  pub run_ffi_pass-IsLinked :
      (importer exporter : BindingSide)
      → IsPair db importer exporter
      → IsLinked like serde db (run_ffi_pass like serde db).0 importer exporter
  run_ffi_pass-IsLinked importer exporter pair =
      visits.2 importer exporter
        (group_sides-IsGrouped (imports like serde db) [] importer pair.imported) pair
