-- ===== src/Pipeline/FfiResolve/Links.antt =====
-- The pass as a sequence of links, each between an import and the one export of its name.
use standardoc.Base.{
  String, ℕ, ◌≡◌, ◌≢◌, refl, sym as inverse, ap, subst, ◌∙◌, ◌↔◌, inl, inr, Bool, true, false, none,
  [], ◌∷◌, ◌++◌, In, In-append_left, find, keep_if, eqb_iff, Option-cases, keep_if_sound,
  In-concat_map,
}
use standardoc.Ir.Ffi.{FfiDirection}
use standardoc.Storage.Error.{ok, ok-injective}
use standardoc.Storage.Serde.{Serde}
use standardoc.Storage.Conv.{edge_kind_to_sql_text, edge_confidence_to_sql_text}
use standardoc.Storage.Database.{Database, SymbolRow, EdgeRow, has_id, symbol_by_id}
use standardoc.Storage.Edges.{lookup_or_fallback, resolve_target, insert_edge_row, insert_edge}
use standardoc.Storage.FfiSides.{BindingSide, side_of, sides_of, fetch_all_sides}
use standardoc.Storage.Index.{find-some, find-none, In-map}
use standardoc.Pipeline.FfiResolve.{ffi_attribute, ffi_edge, is_ffi_edge, ffi_edge_exists}
use standardoc.Pipeline.FfiResolve.Groups.{has_abi_name}

-- An import of another symbol, and the one export of its ABI and name.
pub record IsPair (db : Database) (importer exporter : BindingSide) : Type 0 where
  pub imported : In importer (fetch_all_sides db FfiDirection.import_side)
  pub exported :
      keep_if
        (has_abi_name importer.abi importer.abi_name)
        (fetch_all_sides db FfiDirection.export_side)
      ≡ exporter ∷ []
  pub apart : importer.symbol_id ≢ exporter.symbol_id

-- Links of such pairs, one after the other, where there was none.
pub data Linked (like : String → String → Bool) (serde : Serde) (stored : Database)
    : Database → Database → Type 0 where
  done : {db : Database} → Linked like serde stored db db
  linked :
      {db db' db'' : Database} (importer exporter : BindingSide) (edge_id : ℕ)
      → IsPair stored importer exporter
      → ffi_edge_exists like serde db importer.symbol_id exporter.symbol_id importer.abi ≡ false
      → insert_edge serde db importer.symbol_id
          (ffi_edge importer exporter importer.abi)
          importer.workspace_id
        ≡ ok (db', edge_id)
      → Linked like serde stored db' db''
      → Linked like serde stored db db''

-- A side that is read has its symbol.
pub fetch_all_sides-symbol :
    (db : Database) (direction : FfiDirection) (side : BindingSide)
    → In side (fetch_all_sides db direction)
    → (s : SymbolRow) × In s db.symbols
      × (s.id ≡ side.symbol_id)
      × (s.fqdn ≡ side.fqdn)
      × (s.workspace_id ≡ side.workspace_id)
unfolding fetch_all_sides
fetch_all_sides-symbol db direction side h =
    let (b, kept, at) = In-concat_map (sides_of db.symbols) side _ h in
    let (s, joined, e) = In-map (side_of b) side _ at in
    let (held, same) = keep_if_sound (has_id b.symbol_id) db.symbols s joined in
    (
      s,
      held,
      (eqb_iff s.id b.symbol_id).0 same ∙ inverse (ap (λ (x : BindingSide). x.symbol_id) e),
      inverse (ap (λ (x : BindingSide). x.fqdn) e),
      inverse (ap (λ (x : BindingSide). x.workspace_id) e),
    )

module _ (serde : Serde) where
  -- The row that a link adds.
  abbrev pub ffi_row : Database → BindingSide → BindingSide → EdgeRow
  ffi_row db importer exporter = record {
    id = db.next_edge_id;
    from_symbol_id = importer.symbol_id;
    kind = "IMPORTS";
    to_symbol_id = (lookup_or_fallback db exporter.fqdn importer.workspace_id).0;
    to_unresolved = (lookup_or_fallback db exporter.fqdn importer.workspace_id).1;
    attributes = serde.strings_to_string (ffi_attribute importer.abi ∷ []);
    confidence = "inferred";
    receiver_type = none;
  }

  -- What a link that succeeds leaves.
  pub insert_ffi_edge-row :
      (db : Database) (importer exporter : BindingSide) (db' : Database) (edge_id : ℕ)
      → insert_edge serde db importer.symbol_id
          (ffi_edge importer exporter importer.abi)
          importer.workspace_id
        ≡ ok (db', edge_id)
      → (db'.symbols ≡ db.symbols)
        × (db'.ffi_bindings ≡ db.ffi_bindings)
        × (db'.edges ≡ db.edges ++ ffi_row db importer exporter ∷ [])
  unfolding insert_edge resolve_target insert_edge_row edge_kind_to_sql_text
      edge_confidence_to_sql_text
  insert_ffi_edge-row db importer exporter db' edge_id h =
      elim (Option-cases (symbol_by_id db.symbols importer.symbol_id)) [
        | inl missing ↦ absurd (cc (rw (insert_edge, insert_edge_row, missing) at h))
        | inr (s, found) ↦
            let same = ok-injective _ _ (rw (insert_edge, insert_edge_row, found) at h) in
            (
              inverse (ap (λ (p : Database × ℕ). p.0.symbols) same),
              inverse (ap (λ (p : Database × ℕ). p.0.ffi_bindings) same),
              inverse (ap (λ (p : Database × ℕ). p.0.edges) same),
            )
      ]

  pub insert_ffi_edge-ok :
      (db : Database) (importer exporter : BindingSide) (s : SymbolRow)
      → In s db.symbols
      → s.id ≡ importer.symbol_id
      → (db' : Database) × (edge_id : ℕ) × (insert_edge serde db importer.symbol_id
            (ffi_edge importer exporter importer.abi)
            importer.workspace_id
          ≡ ok (db', edge_id))
  unfolding insert_edge resolve_target insert_edge_row symbol_by_id
  insert_ffi_edge-ok db importer exporter s held same =
      elim (Option-cases (symbol_by_id db.symbols importer.symbol_id)) [
        | inr (t, found) ↦ rw (insert_edge, insert_edge_row, found) (_, _, refl)
        | inl missing ↦ absurd (
            cc (
              find-none (has_id importer.symbol_id) db.symbols s missing held,
              (eqb_iff s.id importer.symbol_id).1 same,
            ))
      ]

pub ffi_edge_exists_iff :
    (like : String → String → Bool) (serde : Serde) (db : Database) (from_id to_id : ℕ)
    (abi : String)
    → (ffi_edge_exists like serde db from_id to_id abi ≡ true)
      ↔ ((e : EdgeRow) × In e db.edges × (is_ffi_edge like serde from_id to_id abi e ≡ true))
unfolding ffi_edge_exists
ffi_edge_exists_iff like serde db from_id to_id abi =
    let p = is_ffi_edge like serde from_id to_id abi in
    elim (Option-cases (find p db.edges)) [
      | inr (e, found) ↦
          let (held, tested) = find-some p db.edges e found in
          (λ h. (e, held, tested), λ k. rw (ffi_edge_exists, found) refl)
      | inl missing ↦ (
        λ h. absurd (cc (rw (ffi_edge_exists, missing) at h)),
        λ k. absurd (cc (find-none p db.edges k.0 missing k.1, k.2)),
      )
    ]

module _ (like : String → String → Bool) (serde : Serde) (stored : Database) where
  pub Linked-trans :
      {a b c : Database}
      → Linked like serde stored a b
      → Linked like serde stored b c
      → Linked like serde stored a c
  Linked-trans done k = k
  Linked-trans (linked importer exporter id pair missing inserted h) k =
      linked importer exporter id pair missing inserted (Linked-trans h k)

  pub Linked-same :
      {a b : Database}
      → Linked like serde stored a b
      → (b.symbols ≡ a.symbols) × (b.ffi_bindings ≡ a.ffi_bindings)
  Linked-same done = (refl, refl)
  Linked-same {a} (linked {db' = a'} importer exporter id pair missing inserted h) =
      let (symbols, bindings, _) = insert_ffi_edge-row serde a importer exporter a' id inserted in
      let (symbols', bindings') = Linked-same h in (symbols' ∙ symbols, bindings' ∙ bindings)

  pub Linked-edges :
      {a b : Database} (e : EdgeRow) → Linked like serde stored a b → In e a.edges → In e b.edges
  Linked-edges e done held = held
  Linked-edges {a} e (linked {db' = a'} importer exporter id pair missing inserted h) held =
      let (_, _, edges) = insert_ffi_edge-row serde a importer exporter a' id inserted in
      Linked-edges e h (subst (In e) (inverse edges) (In-append_left e a.edges _ held))
