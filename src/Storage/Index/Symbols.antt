-- ===== src/Storage/Index/Symbols.antt =====
-- `insert_symbol` and `update_symbol_positions` keep the tables indexed.

use standardoc.Base.{
  String, ℕ, ◌<◌, ◌≡◌, refl, sym as inverse, ap, subst, ◌∙◌, inl, inr, Option, none, some, List, [],
  ◌∷◌, ◌++◌, map, In, In-append_left, Option-cases, Bool-cases, if◌then◌else◌,
}
use standardoc.Ir.Symbol.{RawSymbol, SymbolLocation}
use standardoc.Storage.Error.{ok, ok_of_bind, ok-injective}
use standardoc.Storage.Serde.{Serde}
use standardoc.Storage.Database.{
  Database, SymbolRow, EdgeRow, has_key, has_id, symbol_by_key, file_by_path, to_i64,
}
use standardoc.Storage.Symbols.{
  SymbolInsertContext, replace_row, upsert_row, insert_symbol, update_symbol_positions,
  optional_signature, row_of_symbol,
}
use standardoc.Storage.Index.{
  IsTarget, IsEdge, IsTable, IsIndexed, IsIndexed-weaken, In-map, In-map_of, has_key-true,
}
use standardoc.Storage.Index.Append.{append-IsTable, append-IsEdge}

-- A change of rows that leaves the keys alone.
pub record KeepsKeys (f : SymbolRow → SymbolRow) : Type 0 where
  pub id : (s : SymbolRow) → (f s).id ≡ s.id
  pub workspace_id : (s : SymbolRow) → (f s).workspace_id ≡ s.workspace_id
  pub fqdn : (s : SymbolRow) → (f s).fqdn ≡ s.fqdn

module _ (f : SymbolRow → SymbolRow) (keeps : KeepsKeys f) where
  map-IsTable :
      (symbols : List SymbolRow) (next : ℕ) → IsTable symbols next → IsTable (map f symbols) next
  map-IsTable symbols next table = record {
    below = λ s h.
        let (a, held, e) = In-map f s symbols h in
        subst (λ i. i < next) (inverse (ap (λ (r : SymbolRow). r.id) e ∙ keeps.id a))
          (table.below a held);
    id_is_key = λ s t hs ht same.
        let (a, held, e) = In-map f s symbols hs in
        let (b, held', e') = In-map f t symbols ht in
        let keys : a.id ≡ b.id =
          inverse (ap (λ (r : SymbolRow). r.id) e ∙ keeps.id a)
          ∙ same
          ∙ (ap (λ (r : SymbolRow). r.id) e' ∙ keeps.id b) in
        e ∙ ap f (table.id_is_key a b held held' keys) ∙ inverse e';
    name_is_key = λ s t hs ht same same'.
        let (a, held, e) = In-map f s symbols hs in
        let (b, held', e') = In-map f t symbols ht in
        let workspaces : a.workspace_id ≡ b.workspace_id =
          inverse (ap (λ (r : SymbolRow). r.workspace_id) e ∙ keeps.workspace_id a)
          ∙ same
          ∙ (ap (λ (r : SymbolRow). r.workspace_id) e' ∙ keeps.workspace_id b) in
        let names : a.fqdn ≡ b.fqdn =
          inverse (ap (λ (r : SymbolRow). r.fqdn) e ∙ keeps.fqdn a)
          ∙ same'
          ∙ (ap (λ (r : SymbolRow). r.fqdn) e' ∙ keeps.fqdn b) in
        e ∙ ap f (table.name_is_key a b held held' workspaces names) ∙ inverse e';
  }

  map-IsTarget :
      (pending : List ℕ) (symbols : List SymbolRow) (workspace_id : String)
      → (to : Option ℕ) (name : Option String) → IsTarget pending symbols workspace_id to name
      → IsTarget pending (map f symbols) workspace_id to name
  unfolding IsTarget
  map-IsTarget pending symbols workspace_id (some id) (some name) h = absurd h
  map-IsTarget pending symbols workspace_id none none h = absurd h
  map-IsTarget pending symbols workspace_id (some id) none h =
      let (t, held, same, scoped) = h in
      (f t, In-map_of f t symbols held, keeps.id t ∙ same, keeps.workspace_id t ∙ scoped)
  map-IsTarget pending symbols workspace_id none (some name) h = λ t held scoped named.
      let (a, held', e) = In-map f t symbols held in
      subst (λ i. In i pending) (inverse (ap (λ (r : SymbolRow). r.id) e ∙ keeps.id a))
        (h a held'
          (inverse (ap (λ (r : SymbolRow). r.workspace_id) e ∙ keeps.workspace_id a) ∙ scoped)
          (inverse (ap (λ (r : SymbolRow). r.fqdn) e ∙ keeps.fqdn a) ∙ named))

  map-IsEdge :
      (pending : List ℕ) (symbols : List SymbolRow) (e : EdgeRow)
      → IsEdge pending symbols e
      → IsEdge pending (map f symbols) e
  map-IsEdge pending symbols e h =
      let (s, held, same, end) = h in
      (
        f s,
        In-map_of f s symbols held,
        keeps.id s ∙ same,
        subst (λ w. IsTarget pending (map f symbols) w e.to_symbol_id e.to_unresolved)
            (inverse (keeps.workspace_id s))
            (map-IsTarget pending symbols s.workspace_id e.to_symbol_id e.to_unresolved end),
      )

  map-IsIndexed :
      (pending : List ℕ) (db : Database)
      → IsIndexed pending db
      → IsIndexed pending (record db { symbols = map f db.symbols })
  map-IsIndexed pending db h = record {
    table = map-IsTable db.symbols db.next_symbol_id h.table;
    edges = λ e held. map-IsEdge pending db.symbols e (h.edges e held);
  }

module _ (id : ℕ) (location : SymbolLocation) (revision : ℕ) where
  abbrev moved : SymbolRow → SymbolRow
  moved s =
      if has_id id s
      then record s {
        start_line = location.start_line;
        end_line = location.end_line;
        start_col = location.start_col;
        end_col = location.end_col;
        last_modified_revision = to_i64 revision;
      }
      else s

  moved-KeepsKeys : KeepsKeys moved
  moved-KeepsKeys = record {
    id = λ s. elim (Bool-cases (has_id id s)) [ inl e ↦ rw e refl | inr e ↦ rw e refl ];
    workspace_id = λ s. elim (Bool-cases (has_id id s)) [ inl e ↦ rw e refl | inr e ↦ rw e refl ];
    fqdn = λ s. elim (Bool-cases (has_id id s)) [ inl e ↦ rw e refl | inr e ↦ rw e refl ];
  }

module _ (new : SymbolRow) where
  abbrev pub replaced : SymbolRow → SymbolRow
  replaced s = if has_key new.workspace_id new.fqdn s then record new { id = s.id } else s

  pub replaced-KeepsKeys : KeepsKeys replaced
  replaced-KeepsKeys = record {
    id = λ s. elim (Bool-cases (has_key new.workspace_id new.fqdn s)) [
      | inl e ↦ rw e refl
      | inr e ↦ rw e refl
    ];
    workspace_id = λ s. elim (Bool-cases (has_key new.workspace_id new.fqdn s)) [
      | inl e ↦ rw e (inverse (has_key-true new.workspace_id new.fqdn s e).0)
      | inr e ↦ rw e refl
    ];
    fqdn = λ s. elim (Bool-cases (has_key new.workspace_id new.fqdn s)) [
      | inl e ↦ rw e (inverse (has_key-true new.workspace_id new.fqdn s e).1)
      | inr e ↦ rw e refl
    ];
  }

-- The row that `upsert_row` returns is pending, as it may be new.
pub upsert_row-IsIndexed :
    (pending : List ℕ) (db : Database) (new : SymbolRow) (db' : Database) (id : ℕ)
    → IsIndexed pending db
    → upsert_row db new ≡ ok (db', id)
    → IsIndexed (pending ++ id ∷ []) db'
unfolding upsert_row replace_row
upsert_row-IsIndexed pending db new db' id h e =
    elim (Option-cases (file_by_path db.files new.file_path)) [
      | inl no_file ↦ absurd (cc (rw (upsert_row, no_file) at e))
      | inr (f, file) ↦ elim (Option-cases (symbol_by_key db.symbols new.workspace_id new.fqdn)) [
        | inl fresh ↦
            subst (λ (p : Database × ℕ). IsIndexed (pending ++ p.1 ∷ []) p.0)
              (ok-injective _ _ (rw (upsert_row, file, fresh) at e))
              record {
                table =
                    append-IsTable (record new { id = db.next_symbol_id }) db.symbols
                      db.next_symbol_id h.table refl fresh;
                edges = λ x held.
                    append-IsEdge (record new { id = db.next_symbol_id }) db.symbols
                      db.next_symbol_id h.table refl fresh pending x (h.edges x held);
              }
        | inr (old, stored) ↦
            subst (λ (p : Database × ℕ). IsIndexed (pending ++ p.1 ∷ []) p.0)
              (ok-injective _ _ (rw (upsert_row, file, stored) at e))
              (IsIndexed-weaken pending (pending ++ old.id ∷ [])
                (record db { symbols = replace_row db.symbols new })
                (λ i. In-append_left i pending (old.id ∷ []))
                (map-IsIndexed (replaced new) (replaced-KeepsKeys new) pending db h))
      ]
    ]

pub insert_symbol-IsIndexed :
    (serde : Serde) (pending : List ℕ) (db : Database) (symbol : RawSymbol)
    → (ctx : SymbolInsertContext) (db' : Database) (id : ℕ) → IsIndexed pending db
    → insert_symbol serde db symbol ctx ≡ ok (db', id)
    → IsIndexed (pending ++ id ∷ []) db'
unfolding insert_symbol
insert_symbol-IsIndexed serde pending db symbol ctx db' id h e =
    let (json, _, done) =
      ok_of_bind (optional_signature serde symbol.signature)
        (λ json. upsert_row db (row_of_symbol serde symbol ctx json 0)) e in
    upsert_row-IsIndexed pending db (row_of_symbol serde symbol ctx json 0) db' id h done

pub update_symbol_positions-IsIndexed :
    (pending : List ℕ) (db : Database) (id : ℕ) (location : SymbolLocation) (revision : ℕ)
    → IsIndexed pending db
    → IsIndexed pending (update_symbol_positions db id location revision)
unfolding update_symbol_positions
update_symbol_positions-IsIndexed pending db id location revision =
    map-IsIndexed (moved id location revision) (moved-KeepsKeys id location revision) pending db
