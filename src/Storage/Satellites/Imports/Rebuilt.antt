-- ===== src/Storage/Satellites/Imports/Rebuilt.antt =====
-- The imports of a module, after `put_module_lookup`.
use standardoc.Base.{
  String, ◌≡◌, ◌↔◌, refl, ap, subst, inl, inr, true, false, not, List, [], In, keep_if,
  keep_if_sound, keep_if_complete, Bool-cases,
}
use standardoc.Ir.Lookup.{ModuleLookup, ImportRecord}
use standardoc.Storage.Error.{ok, ok_of_bind, ok-injective}
use standardoc.Storage.Serde.{Serde}
use standardoc.Storage.Database.{Database, ImportRow}
use standardoc.Storage.Satellites.{is_import_of, import_row, insert_imports, put_module_lookup}
use standardoc.Storage.Satellites.Imports.{
  HasPair, import_row-IsMine, insert_imports-keeps, insert_imports_sound, insert_imports_complete,
  insert_imports-IsUnique,
}

-- What the imports of a module have to be after a write, and the rows of the other modules.
pub record IsRebuilt (workspace_id : String) (lookup : ModuleLookup) (before after : List ImportRow)
    : Type 0 where
  pub others :
      (r : ImportRow)
      → is_import_of workspace_id lookup.module_fqdn r ≡ false
      → In r after ↔ In r before
  pub sound :
      (r : ImportRow)
      → In r after
      → is_import_of workspace_id lookup.module_fqdn r ≡ true
      → (i : ImportRecord) × In i lookup.imports
        × (r ≡ import_row workspace_id lookup.module_fqdn i)
  pub complete :
      (i : ImportRecord)
      → In i lookup.imports
      → HasPair workspace_id lookup.module_fqdn after i.local_name i.origin_module
  pub unique :
      (r s : ImportRow)
      → In r after
      → In s after
      → is_import_of workspace_id lookup.module_fqdn r ≡ true
      → is_import_of workspace_id lookup.module_fqdn s ≡ true
      → r.local_name ≡ s.local_name
      → r.origin_module ≡ s.origin_module
      → r ≡ s

module _ (workspace_id : String) (lookup : ModuleLookup) (before : List ImportRow) where
  abbrev cleared : List ImportRow
  cleared = keep_if (λ r. not (is_import_of workspace_id lookup.module_fqdn r)) before

  cleared_of_others :
      (r : ImportRow)
      → In r cleared
      → In r before × (is_import_of workspace_id lookup.module_fqdn r ≡ false)
  cleared_of_others r h =
      let (held, other) =
        keep_if_sound (λ x. not (is_import_of workspace_id lookup.module_fqdn x)) before r h in
      elim (Bool-cases (is_import_of workspace_id lookup.module_fqdn r)) [
        | inl e ↦ absurd (cc (e, other))
        | inr e ↦ (held, e)
      ]

  insert_imports-IsRebuilt :
      IsRebuilt workspace_id lookup before
        (insert_imports workspace_id lookup.module_fqdn [] lookup.imports cleared)
  insert_imports-IsRebuilt =
      let w = workspace_id in
      let m = lookup.module_fqdn in
      let (_, u) = insert_imports-IsUnique w m lookup.imports [] cleared record {
        one = λ r s hr hs own. absurd (cc (own, (cleared_of_others r hr).1));
        known = λ r h own. absurd (cc (own, (cleared_of_others r h).1));
      } in
      record {
        others = λ r other. (
          λ h. elim (insert_imports_sound w m lookup.imports [] cleared r h) [
            | inl old ↦ (cleared_of_others r old).0
            | inr new ↦
                absurd (cc (other, ap (is_import_of w m) new.2, import_row-IsMine w m new.0))
          ],
          λ h.
              insert_imports-keeps w m lookup.imports [] cleared r
                (keep_if_complete (λ x. not (is_import_of w m x)) before r h (rw other refl)),
        );
        sound = λ r h own. elim (insert_imports_sound w m lookup.imports [] cleared r h) [
          | inl old ↦ absurd (cc (own, (cleared_of_others r old).1))
          | inr new ↦ new
        ];
        complete =
            λ i h. insert_imports_complete w m lookup.imports [] cleared (λ l o s. absurd s) i h;
        unique = λ r s hr hs mr ms. u.one r s hr hs mr ms;
      }

-- After the lookup of a module is written, the import rows of the module are those of its imports,
-- with exactly one row for each pair of a local name and an origin module that occurs there, and the
-- rows of every other module and workspace are as before.
pub put_module_lookup-IsRebuilt :
    (serde : Serde) (db : Database) (workspace_id : String) (lookup : ModuleLookup) (db' : Database)
    → put_module_lookup serde db workspace_id lookup ≡ ok db'
    → IsRebuilt workspace_id lookup db.workspace_imports db'.workspace_imports
unfolding put_module_lookup
put_module_lookup-IsRebuilt serde db workspace_id lookup db' e =
    let (payload, _, done) = ok_of_bind (serde.encode_to_vec lookup) _ e in
    subst (λ (d : Database). IsRebuilt workspace_id lookup db.workspace_imports d.workspace_imports)
      (ok-injective _ _ done) (insert_imports-IsRebuilt workspace_id lookup db.workspace_imports)
