-- ===== src/Storage/Index/Edges.antt =====
-- `insert_edge`, `promote_unresolved_batch` and `delete_edges_from` keep the tables indexed.
use standardoc.Base.{
  String, ℕ, ◌≡◌, refl, sym as inverse, subst, inl, inr, Bool, not, Option, List, In,
  In-append_last, keep_if_sound, Option-cases,
}
use standardoc.Base.Text.{append}
use standardoc.Ir.Edge.{RawEdge, ResolvedOrUnresolved}
use standardoc.Storage.Error.{ok, ok_of_bind, ok-injective}
use standardoc.Storage.Serde.{Serde}
use standardoc.Storage.Database.{Database, SymbolRow, EdgeRow, symbol_by_key}
use standardoc.Storage.Symbols.{check_bridge, delete_edges, leaves}
use standardoc.Storage.Edges.{
  lookup_or_fallback, resolve_target, insert_edge_row, insert_edge, delete_edges_from,
}
use standardoc.Storage.Index.{
  IsTarget, IsEdge, IsIndexed, symbol_by_key-none, symbol_by_key-some, symbol_by_id-of,
}

-- A name is looked up in the given workspace.
lookup_or_fallback-IsTarget :
    (pending : List ℕ) (db : Database) (fqdn workspace_id : String)
    → let target = lookup_or_fallback db fqdn workspace_id in
      IsTarget pending db.symbols workspace_id target.0 target.1
unfolding lookup_or_fallback IsTarget
lookup_or_fallback-IsTarget pending db fqdn workspace_id =
    elim (Option-cases (symbol_by_key db.symbols workspace_id fqdn)) [
      | inl e ↦
          rw (lookup_or_fallback, e)
            (λ t held scoped named.
              absurd (symbol_by_key-none db.symbols workspace_id fqdn t e held scoped named))
      | inr (s, e) ↦
          let (held, scoped, named) = symbol_by_key-some db.symbols workspace_id fqdn s e in
          rw (lookup_or_fallback, e) (s, held, refl, scoped)
    ]

pub resolve_target-IsTarget :
    (pending : List ℕ) (db : Database) (to : ResolvedOrUnresolved) (workspace_id : String)
    → (target : Option ℕ × Option String) → resolve_target db to workspace_id ≡ ok target
    → IsTarget pending db.symbols workspace_id target.0 target.1
unfolding resolve_target
resolve_target-IsTarget pending db (ResolvedOrUnresolved.resolved fqdn) workspace_id target e =
    subst (λ (t : Option ℕ × Option String). IsTarget pending db.symbols workspace_id t.0 t.1)
      (ok-injective _ _ e) (lookup_or_fallback-IsTarget pending db fqdn workspace_id)
resolve_target-IsTarget pending db (ResolvedOrUnresolved.unresolved name) workspace_id target e =
    subst (λ (t : Option ℕ × Option String). IsTarget pending db.symbols workspace_id t.0 t.1)
      (ok-injective _ _ e) (lookup_or_fallback-IsTarget pending db name workspace_id)
resolve_target-IsTarget pending db (ResolvedOrUnresolved.unresolved_bridge bridge name) workspace_id
      target e =
    let fqdn = append bridge (append "::" name) in
    let (_, _, done) =
      ok_of_bind (check_bridge bridge) (λ _. ok (lookup_or_fallback db fqdn workspace_id)) e in
    subst (λ (t : Option ℕ × Option String). IsTarget pending db.symbols workspace_id t.0 t.1)
      (ok-injective _ _ done) (lookup_or_fallback-IsTarget pending db fqdn workspace_id)

pub insert_edge_row-IsIndexed :
    (serde : Serde) (pending : List ℕ) (db : Database) (s : SymbolRow) (edge : RawEdge)
    → (target : Option ℕ × Option String) (db' : Database) (edge_id : ℕ) → IsIndexed pending db
    → In s db.symbols
    → IsTarget pending db.symbols s.workspace_id target.0 target.1
    → insert_edge_row serde db s.id edge target ≡ ok (db', edge_id)
    → IsIndexed pending db'
unfolding insert_edge_row
insert_edge_row-IsIndexed serde pending db s edge (to, name) db' edge_id h held end e =
    let found = symbol_by_id-of db.symbols db.next_symbol_id s.id s h.table held refl in
    subst (λ (p : Database × ℕ). IsIndexed pending p.0)
      (ok-injective _ _ (rw (insert_edge_row, found) at e))
      record {
        table = h.table;
        edges = λ x there. elim (In-append_last x db.edges _ there) [
          | inl old ↦ h.edges x old
          | inr same ↦ subst (IsEdge pending db.symbols) (inverse same) (s, held, refl, end)
        ];
      }

-- An edge that is inserted for a stored symbol, with its target looked up in the workspace of that
-- symbol, keeps the index consistent for every set of pending ids.
pub insert_edge-IsIndexed :
    (serde : Serde) (pending : List ℕ) (db : Database) (s : SymbolRow) (edge : RawEdge)
    → (db' : Database) (edge_id : ℕ) → IsIndexed pending db
    → In s db.symbols
    → insert_edge serde db s.id edge s.workspace_id ≡ ok (db', edge_id)
    → IsIndexed pending db'
unfolding insert_edge
insert_edge-IsIndexed serde pending db s edge db' edge_id h held e =
    let (target, looked_up, done) =
      ok_of_bind (resolve_target db edge.to s.workspace_id)
        (λ target. insert_edge_row serde db s.id edge target) e in
    insert_edge_row-IsIndexed serde pending db s edge target db' edge_id h held
      (resolve_target-IsTarget pending db edge.to s.workspace_id target looked_up) done

pub delete_edges-IsIndexed :
    (pending : List ℕ) (db : Database) (doomed : EdgeRow → Bool)
    → IsIndexed pending db
    → IsIndexed pending (delete_edges db doomed)
unfolding delete_edges
delete_edges-IsIndexed pending db doomed h = record {
  table = h.table;
  edges = λ x held. h.edges x (keep_if_sound (λ e. not (doomed e)) db.edges x held).0;
}

pub delete_edges_from-IsIndexed :
    (pending : List ℕ) (db : Database) (id : ℕ)
    → IsIndexed pending db
    → IsIndexed pending (delete_edges_from db id)
unfolding delete_edges_from
delete_edges_from-IsIndexed pending db id = delete_edges-IsIndexed pending db (leaves id)
