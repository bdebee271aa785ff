-- ===== src/Storage/Index/Relink.antt =====
-- A symbol that is deleted and written again under its name gets its edges back.
use standardoc.Base.{
  String, ℕ, ◌≡◌, ◌≢◌, refl, sym as inverse, ap, subst, ◌∙◌, inl, inr, true, not, Option, none,
  some, List, [], ◌∷◌, map, In, In-append_left, keep_if_complete, Option-cases, Bool-cases, eqb_iff,
}
use mathlib.Core.Option
use standardoc.Storage.Error.{ok, ok-injective}
use standardoc.Storage.Database.{
  Database, SymbolRow, EdgeRow, symbol_by_key, symbol_by_id, file_by_path, has_key,
}
use standardoc.Storage.Symbols.{
  upsert_row, replace_row, delete_symbol, delete_symbol_row, delete_edges, demote_edge, leaves,
}
use standardoc.Storage.Symbols.Lookup.{upsert_row-IsWritten}
use standardoc.Storage.Edges.{
  names_one_of, promotion_target, promote_edge, promote_unresolved_batch,
}
use standardoc.Storage.Index.{
  IsTarget, IsConsistent, In-map_of, has_key-of, symbol_by_key-some, symbol_by_id-of,
}
use standardoc.Storage.Index.Symbols.{replaced, replaced-KeepsKeys, upsert_row-IsIndexed}
use standardoc.Storage.Index.Delete.{
  without_complete, delete_symbol-IsIndexed, delete_symbol-symbols, points_to-of,
}
use standardoc.Storage.Index.Promote.{names_one_of-of}

-- The statement leaves the edges alone, and each row its id and workspace.
upsert_row_keeps :
    (db : Database) (new : SymbolRow) (db' : Database) (id : ℕ)
    → upsert_row db new ≡ ok (db', id)
    → (db'.edges ≡ db.edges)
      × ((s : SymbolRow)
          → In s db.symbols
          → (s' : SymbolRow) × In s' db'.symbols
            × (s'.id ≡ s.id)
            × (s'.workspace_id ≡ s.workspace_id))
unfolding upsert_row replace_row
upsert_row_keeps db new db' id e =
    let Kept = λ (p : Database × ℕ).
      (p.0.edges ≡ db.edges)
      × ((s : SymbolRow)
          → In s db.symbols
          → (s' : SymbolRow) × In s' p.0.symbols
            × (s'.id ≡ s.id)
            × (s'.workspace_id ≡ s.workspace_id)) in
    elim (Option-cases (file_by_path db.files new.file_path)) [
      | inl no_file ↦ absurd (cc (rw (upsert_row, no_file) at e))
      | inr (_, file) ↦ elim (Option-cases (symbol_by_key db.symbols new.workspace_id new.fqdn)) [
        | inl fresh ↦
            subst Kept (ok-injective _ _ (rw (upsert_row, file, fresh) at e))
              (refl, λ s held. (s, In-append_left s db.symbols _ held, refl, refl))
        | inr (old, stored) ↦ subst Kept (ok-injective _ _ (rw (upsert_row, file, stored) at e)) (
          refl,
          λ s held. (
            replaced new s,
            In-map_of (replaced new) s db.symbols held,
            (replaced-KeepsKeys new).id s,
            (replaced-KeepsKeys new).workspace_id s,
          ),
        )
      ]
    ]

IsTarget-symbol :
    (p : List ℕ) (symbols : List SymbolRow) (workspace_id : String) (id : ℕ) (name : Option String)
    → IsTarget p symbols workspace_id (some id) name
    → (t : SymbolRow) × In t symbols × (t.id ≡ id) × (t.workspace_id ≡ workspace_id)
unfolding IsTarget
IsTarget-symbol p symbols workspace_id id none h = h
IsTarget-symbol p symbols workspace_id id (some name) h = absurd h

-- An edge whose name was looked for and found.
promote_edge_of :
    (symbols : List SymbolRow) (ids : List ℕ) (e : EdgeRow) (name : String) (s t : SymbolRow)
    → e.to_unresolved ≡ some name
    → names_one_of symbols ids name ≡ true
    → symbol_by_id symbols e.from_symbol_id ≡ some s
    → symbol_by_key symbols s.workspace_id name ≡ some t
    → promote_edge symbols ids e ≡ record e { to_symbol_id = some t.id; to_unresolved = none }
unfolding promote_edge promotion_target
promote_edge_of symbols ids e name s t left among source found =
    simp (promote_edge, left, among, promotion_target, source, found)

module _ (db : Database) (h : IsConsistent db) (d s : SymbolRow) (e : EdgeRow)
    (d_held : In d db.symbols) (s_held : In s db.symbols) (e_held : In e db.edges)
    (leaves_s : s.id ≡ e.from_symbol_id) (enters_d : e.to_symbol_id ≡ some d.id) where
  -- Both ends are in one workspace.
  one_workspace : s.workspace_id ≡ d.workspace_id
  one_workspace =
      let (s₀, held, same, end) = h.edges e e_held in
      let (t, there, at, scoped) =
        IsTarget-symbol [] db.symbols s₀.workspace_id d.id e.to_unresolved
          (subst (λ to. IsTarget [] db.symbols s₀.workspace_id to e.to_unresolved) enters_d end) in
      ap (λ (r : SymbolRow). r.workspace_id)
        (h.table.id_is_key s s₀ s_held held (leaves_s ∙ inverse same))
      ∙ inverse scoped
      ∙ ap (λ (r : SymbolRow). r.workspace_id) (h.table.id_is_key t d there d_held at)

  abbrev named_edge : EdgeRow
  named_edge = record e { to_symbol_id = none; to_unresolved = some d.fqdn }

  demoted-named : s.id ≢ d.id → In named_edge (delete_symbol db d.id).edges
  unfolding delete_symbol delete_symbol_row delete_edges demote_edge
  demoted-named other =
      let fqdn = Option.map (λ (r : SymbolRow). r.fqdn) (symbol_by_id db.symbols d.id) in
      let found = symbol_by_id-of db.symbols db.next_symbol_id d.id d h.table d_held refl in
      let demoted : demote_edge d.id fqdn e ≡ named_edge =
        simp (demote_edge, points_to-of d.id e enters_d, found) in
      let stays : not (leaves d.id named_edge) ≡ true = elim (Bool-cases (leaves d.id named_edge)) [
        | inl b ↦ absurd (other (leaves_s ∙ (eqb_iff e.from_symbol_id d.id).0 b))
        | inr b ↦ rw b refl
      ] in
      keep_if_complete (λ x. not (leaves d.id x)) (map (demote_edge d.id fqdn) db.edges) named_edge
        (subst (λ x. In x (map (demote_edge d.id fqdn) db.edges)) demoted
          (In-map_of (demote_edge d.id fqdn) e db.edges e_held))
        stays

  -- In a consistent index, a symbol that is deleted and then written again in its workspace and by
  -- its name gets back every edge that entered it from another symbol, once the id under which it is
  -- written is promoted: the edge is as before, and ends at that id.
  pub promote_unresolved_batch-upsert_row-delete_symbol :
      s.id ≢ d.id
      → (new : SymbolRow) (db' : Database) (id : ℕ) → new.workspace_id ≡ d.workspace_id
      → new.fqdn ≡ d.fqdn
      → upsert_row (delete_symbol db d.id) new ≡ ok (db', id)
      → In
          (record e { to_symbol_id = some id; to_unresolved = none })
          (promote_unresolved_batch db' (id ∷ [])).edges
  unfolding promote_unresolved_batch
  promote_unresolved_batch-upsert_row-delete_symbol other new db' id scope name done =
      let db₁ = delete_symbol db d.id in
      let h₁ = delete_symbol-IsIndexed [] db d.id h in
      let h' = upsert_row-IsIndexed [] db₁ new db' id h₁ done in
      let (edges_same, rows_kept) = upsert_row_keeps db₁ new db' id done in
      let s_kept : In s db₁.symbols =
        subst (In s) (inverse (delete_symbol-symbols db d.id))
          (without_complete d.id db.symbols s s_held other) in
      let (s', s'_held, s'_id, s'_scope) = rows_kept s s_kept in
      let source : symbol_by_id db'.symbols e.from_symbol_id ≡ some s' =
        symbol_by_id-of db'.symbols db'.next_symbol_id e.from_symbol_id s' h'.table s'_held
          (s'_id ∙ leaves_s) in
      let t : SymbolRow = record new { id = id } in
      let own : has_key new.workspace_id new.fqdn new ≡ true =
        has_key-of new.workspace_id new.fqdn new refl refl in
      let stored : symbol_by_key db'.symbols new.workspace_id new.fqdn ≡ some t =
        upsert_row-IsWritten db₁ new db' id done new.workspace_id new.fqdn ∙ simp own in
      let (t_held, _, _) = symbol_by_key-some db'.symbols new.workspace_id new.fqdn t stored in
      let target : symbol_by_key db'.symbols s'.workspace_id d.fqdn ≡ some t =
        subst (λ w. symbol_by_key db'.symbols w d.fqdn ≡ some t)
          (scope ∙ inverse one_workspace ∙ inverse s'_scope)
          (subst (λ f. symbol_by_key db'.symbols new.workspace_id f ≡ some t) name stored) in
      let among : names_one_of db'.symbols (id ∷ []) d.fqdn ≡ true =
        names_one_of-of db'.symbols (id ∷ []) d.fqdn t (inl refl)
          (symbol_by_id-of db'.symbols db'.next_symbol_id id t h'.table t_held refl) name in
      let promoted : promote_edge db'.symbols (id ∷ []) named_edge
          ≡ record e { to_symbol_id = some id; to_unresolved = none } =
        promote_edge_of db'.symbols (id ∷ []) named_edge d.fqdn s' t refl among source target in
      subst (λ x. In x (map (promote_edge db'.symbols (id ∷ [])) db'.edges)) promoted
        (In-map_of (promote_edge db'.symbols (id ∷ [])) named_edge db'.edges
          (subst (In named_edge) (inverse edges_same) (demoted-named other)))
