-- ===== src/Pipeline/Batch/Consistent.antt =====
-- The writes of one file leave the index consistent.
use mathlib.Core.List.{append_assoc, append-nil}
use standardoc.Base.{
  String, ℕ, ◌≡◌, sym as inverse, ap, subst, ◌∙◌, List, [], ◌∷◌, ◌++◌, inl, inr, Option-cases,
  Bool-cases,
}
use standardoc.Ir.Edge.{RawEdge}
use standardoc.Ir.Symbol.{RawSymbol, ExtractedFile}
use standardoc.Storage.Error.{Result, ok, ok_of_bind, ok-injective, ◌>>=◌}
use standardoc.Storage.Serde.{Serde}
use standardoc.Storage.Database.{Database, symbol_by_key}
use standardoc.Storage.Symbols.{
  SymbolInsertContext, insert_symbol, update_symbol_positions, delete_symbol,
}
use standardoc.Storage.Edges.{insert_edge, delete_edges_from}
use standardoc.Storage.Index.{IsIndexed, IsConsistent, symbol_by_key-some}
use standardoc.Storage.Index.Symbols.{insert_symbol-IsIndexed, update_symbol_positions-IsIndexed}
use standardoc.Storage.Index.Delete.{delete_symbol-IsIndexed}
use standardoc.Storage.Index.Edges.{insert_edge-IsIndexed, delete_edges_from-IsIndexed}
use standardoc.Storage.Index.Promote.{promote_unresolved_batch-IsConsistent}
use standardoc.Storage.Index.Frame.{IsIndexed-same, insert_edge_sites-SameIndex}
use standardoc.Pipeline.Diff.{DiffPlan}
use standardoc.Pipeline.Batch.Apply.{
  lookup_symbol_id_by_fqdn, apply_deletes, apply_position_updates, apply_modifications,
  apply_inserts, apply_inserts_and_modifications, is_touched, apply_edge, apply_edges,
  insert_context, apply_symbols_and_edges,
}

pub apply_deletes-IsIndexed :
    (pending ids : List ℕ) (db : Database)
    → IsIndexed pending db
    → IsIndexed pending (apply_deletes db ids)
unfolding apply_deletes
apply_deletes-IsIndexed pending [] db h = h
apply_deletes-IsIndexed pending (id ∷ ids) db h =
    apply_deletes-IsIndexed pending ids (delete_symbol db id)
      (delete_symbol-IsIndexed pending db id h)

pub apply_position_updates-IsIndexed :
    (pending : List ℕ) (updates : List (ℕ × RawSymbol)) (revision : ℕ) (db : Database)
    → IsIndexed pending db
    → IsIndexed pending (apply_position_updates db updates revision)
unfolding apply_position_updates
apply_position_updates-IsIndexed pending [] revision db h = h
apply_position_updates-IsIndexed pending ((id, sym) ∷ updates) revision db h =
    apply_position_updates-IsIndexed pending updates revision
      (update_symbol_positions db id sym.location revision)
      (update_symbol_positions-IsIndexed pending db id sym.location revision h)

-- The end of a loop, and a round of it, whose first id is pending from then on.
IsIndexed-done :
    (pending : List ℕ) (db db' : Database) (ids : List ℕ)
    → IsIndexed pending db
    → ◌≡◌ {A = Result (Database × List ℕ)} (ok (db, [])) (ok (db', ids))
    → IsIndexed (pending ++ ids) db'
IsIndexed-done pending db db' ids h e =
    subst (λ (p : Database × List ℕ). IsIndexed (pending ++ p.1) p.0) (ok-injective _ _ e)
      (subst (λ q. IsIndexed q db) (inverse (append-nil pending)) h)

IsIndexed-round :
    (pending : List ℕ) (id : ℕ) (rest : Result (Database × List ℕ)) (db' : Database)
    → (ids : List ℕ)
    → ((later : List ℕ) → rest ≡ ok (db', later) → IsIndexed ((pending ++ id ∷ []) ++ later) db')
    → ◌>>=◌ {B = Database × List ℕ} rest (λ (p : Database × List ℕ). ok (p.0, id ∷ p.1))
      ≡ ok (db', ids)
    → IsIndexed (pending ++ ids) db'
IsIndexed-round pending id rest db' ids next e =
    let ((db'', later), run, done) = ok_of_bind rest _ e in
    let same = ok-injective _ _ done in
    let db_same : db'' ≡ db' = ap (λ (p : Database × List ℕ). p.0) same in
    let ids_same : id ∷ later ≡ ids = ap (λ (p : Database × List ℕ). p.1) same in
    subst (λ q. IsIndexed q db')
      (append_assoc pending (id ∷ []) later ∙ ap (λ l. pending ++ l) ids_same)
      (next later (run ∙ ap (λ d. ok (d, later)) db_same))

module _ (serde : Serde) (ctx : SymbolInsertContext) where
  -- The ids that the loop returns are added to those that are pending.
  pub apply_modifications-IsIndexed :
      (modifications : List (ℕ × RawSymbol)) (pending : List ℕ) (db db' : Database) (ids : List ℕ)
      → IsIndexed pending db
      → apply_modifications serde db modifications ctx ≡ ok (db', ids)
      → IsIndexed (pending ++ ids) db'
  unfolding apply_modifications
  apply_modifications-IsIndexed [] pending db db' ids h e = IsIndexed-done pending db db' ids h e
  apply_modifications-IsIndexed ((old, sym) ∷ modifications) pending db db' ids h e =
      let ((db₁, id), inserted, e₁) = ok_of_bind (insert_symbol serde db sym ctx) _ e in
      IsIndexed-round pending id
        (apply_modifications serde (delete_edges_from db₁ id) modifications ctx) db' ids
        (λ later.
          apply_modifications-IsIndexed modifications (pending ++ id ∷ [])
            (delete_edges_from db₁ id) db' later
            (delete_edges_from-IsIndexed (pending ++ id ∷ []) db₁ id
              (insert_symbol-IsIndexed serde pending db sym ctx db₁ id h inserted)))
        e₁

  pub apply_inserts-IsIndexed :
      (inserts : List RawSymbol) (pending : List ℕ) (db db' : Database) (ids : List ℕ)
      → IsIndexed pending db
      → apply_inserts serde db inserts ctx ≡ ok (db', ids)
      → IsIndexed (pending ++ ids) db'
  unfolding apply_inserts
  apply_inserts-IsIndexed [] pending db db' ids h e = IsIndexed-done pending db db' ids h e
  apply_inserts-IsIndexed (sym ∷ inserts) pending db db' ids h e =
      let ((db₁, id), inserted, e₁) = ok_of_bind (insert_symbol serde db sym ctx) _ e in
      IsIndexed-round pending id (apply_inserts serde db₁ inserts ctx) db' ids
        (λ later.
          apply_inserts-IsIndexed inserts (pending ++ id ∷ []) db₁ db' later
            (insert_symbol-IsIndexed serde pending db sym ctx db₁ id h inserted))
        e₁

  pub apply_inserts_and_modifications-IsIndexed :
      (plan : DiffPlan) (db db' : Database) (ids : List ℕ)
      → IsConsistent db
      → apply_inserts_and_modifications serde db plan ctx ≡ ok (db', ids)
      → IsIndexed ids db'
  unfolding apply_inserts_and_modifications
  apply_inserts_and_modifications-IsIndexed plan db db' ids h e =
      let ((db₁, modified), run, e₁) =
        ok_of_bind (apply_modifications serde db plan.modifications ctx) _ e in
      let ((db₂, inserted), run', e₂) =
        ok_of_bind (apply_inserts serde db₁ plan.inserts ctx) _ e₁ in
      subst (λ (p : Database × List ℕ). IsIndexed p.1 p.0) (ok-injective _ _ e₂)
        (apply_inserts-IsIndexed plan.inserts modified db₁ db₂ inserted
          (apply_modifications-IsIndexed plan.modifications [] db db₁ modified h run) run')

module _ (serde : Serde) (plan : DiffPlan) (workspace_id : String) where
  -- The source of an edge is looked up in the workspace of the file.
  apply_edge-IsIndexed :
      (pending : List ℕ) (edge : RawEdge) (db db' : Database)
      → IsIndexed pending db
      → apply_edge serde db plan edge workspace_id ≡ ok db'
      → IsIndexed pending db'
  unfolding apply_edge lookup_symbol_id_by_fqdn
  apply_edge-IsIndexed pending edge db db' h e =
      elim (Bool-cases (is_touched plan edge.from_fqdn)) [
        | inr untouched ↦
            subst (IsIndexed pending) (ok-injective _ _ (rw (apply_edge, untouched) at e)) h
        | inl touched ↦ elim (Option-cases (symbol_by_key db.symbols workspace_id edge.from_fqdn)) [
          | inl missing ↦
              subst (IsIndexed pending)
                (ok-injective _ _
                  (rw (apply_edge, touched, lookup_symbol_id_by_fqdn, missing) at e))
                h
          | inr (s, found) ↦
              let (held, scoped, _) =
                symbol_by_key-some db.symbols workspace_id edge.from_fqdn s found in
              let ((db₁, edge_id), inserted, e₁) =
                ok_of_bind (insert_edge serde db s.id edge workspace_id) _
                  (rw (apply_edge, touched, lookup_symbol_id_by_fqdn, found) at e) in
              subst (IsIndexed pending) (ok-injective _ _ e₁) (
                IsIndexed-same pending db₁ _ (insert_edge_sites-SameIndex edge_id edge.sites db₁) (
                  insert_edge-IsIndexed serde pending db s edge db₁ edge_id h held (
                    subst (λ w. insert_edge serde db s.id edge w ≡ ok (db₁, edge_id))
                      (inverse scoped) inserted)))
        ]
      ]

  pub apply_edges-IsIndexed :
      (pending : List ℕ) (edges : List RawEdge) (db db' : Database)
      → IsIndexed pending db
      → apply_edges serde db plan edges workspace_id ≡ ok db'
      → IsIndexed pending db'
  unfolding apply_edges
  apply_edges-IsIndexed pending [] db db' h e = subst (IsIndexed pending) (ok-injective _ _ e) h
  apply_edges-IsIndexed pending (edge ∷ edges) db db' h e =
      let (db₁, run, e₁) = ok_of_bind (apply_edge serde db plan edge workspace_id) _ e in
      apply_edges-IsIndexed pending edges db₁ db' (apply_edge-IsIndexed pending edge db db₁ h run)
        e₁

-- Whatever plan and edges a file has, a consistent index stays consistent: keys stay keys, every
-- edge has a source, and an end that is a symbol of the workspace or an unknown name.
pub apply_symbols_and_edges-IsConsistent :
    (serde : Serde) (db : Database) (plan : DiffPlan) (extracted : ExtractedFile) (revision : ℕ)
    → (workspace_id : String) (db' : Database) (ids : List ℕ) → IsConsistent db
    → apply_symbols_and_edges serde db plan extracted revision workspace_id ≡ ok (db', ids)
    → IsConsistent db'
unfolding apply_symbols_and_edges
apply_symbols_and_edges-IsConsistent serde db plan extracted revision workspace_id db' ids h e =
    let h₁ = apply_deletes-IsIndexed [] plan.deletions db h in
    let h₂ =
      apply_position_updates-IsIndexed [] plan.position_updates revision
        (apply_deletes db plan.deletions) h₁ in
    let ctx = insert_context extracted revision workspace_id in
    let ((db₃, touched), run, e₁) =
      ok_of_bind (apply_inserts_and_modifications serde _ plan ctx) _ e in
    let (db₄, run', e₂) =
      ok_of_bind (apply_edges serde db₃ plan extracted.edges workspace_id) _ e₁ in
    subst (λ (p : Database × List ℕ). IsConsistent p.0) (ok-injective _ _ e₂)
      (promote_unresolved_batch-IsConsistent db₄ touched (
        apply_edges-IsIndexed serde plan workspace_id touched extracted.edges db₃ db₄
          (apply_inserts_and_modifications-IsIndexed serde ctx plan _ db₃ touched h₂ run) run'))
