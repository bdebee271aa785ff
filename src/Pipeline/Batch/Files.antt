-- ===== src/Pipeline/Batch/Files.antt =====
-- One command's writes: a file is written, deleted, or marked as unparsable.
use standardoc.Base.{
  String, ℕ, ◌≡◌, ◌≢◌, ◌↔◌, refl, sym as inverse, ap, subst, ◌∙◌, List, [], ◌∷◌, inl, inr, In,
  Bool-cases, ◌==◌, eq_iff,
}
use standardoc.Ir.Kinds.{Language}
use standardoc.Ir.Symbol.{ExtractedFile}
use standardoc.Storage.Error.{Result, ok, ok_of_bind}
use standardoc.Storage.Serde.{Serde}
use standardoc.Storage.Database.{Database, SymbolRow}
use standardoc.Storage.Symbols.{delete_symbol}
use standardoc.Storage.Files.{get_file, delete_file}
use standardoc.Storage.Satellites.{delete_edge_sites_by_file}
use standardoc.Storage.Index.{IsConsistent}
use standardoc.Storage.Index.Delete.{without_sound, without_complete, delete_symbol-symbols}
use standardoc.Storage.Index.Frame.{
  SameIndex, SameIndex-trans, IsIndexed-same, upsert_file-SameIndex, delete_file-SameIndex,
  delete_edge_sites_by_file-SameIndex,
}
use standardoc.Pipeline.Diff.{fetch_existing_symbols, diff_symbols}
use standardoc.Pipeline.Batch.Apply.{apply_deletes, apply_symbols_and_edges}
use standardoc.Pipeline.Batch.Consistent.{
  apply_deletes-IsIndexed, apply_symbols_and_edges-IsConsistent,
}
use standardoc.Pipeline.Batch.Frame.{apply_satellites-SameIndex}
use standardoc.Pipeline.Batch.{
  upsert_file_row, apply_upsert_file, symbol_ids_of_file, fetch_symbol_ids_by_file,
  apply_delete_file, record_parse_error,
}

upsert_file_row-SameIndex :
    (clock : Result ℕ) (extracted : ExtractedFile) (db db' : Database)
    → upsert_file_row clock db extracted ≡ ok db'
    → SameIndex db db'
unfolding upsert_file_row
upsert_file_row-SameIndex clock extracted db db' e =
    let (now, _, done) = ok_of_bind clock _ e in upsert_file-SameIndex db _ db' done

-- Writing the extraction of a file keeps a consistent index consistent, whatever the file, the
-- workspace and the revision are: ids and names of a workspace stay keys, every edge keeps a source,
-- and its end is a symbol of its source's workspace or a name that is no symbol there.
pub apply_upsert_file-IsConsistent :
    (serde : Serde) (clock : Result ℕ) (db : Database) (extracted : ExtractedFile) (revision : ℕ)
    → (workspace_id : String) (db' : Database) → IsConsistent db
    → apply_upsert_file serde clock db extracted revision workspace_id ≡ ok db'
    → IsConsistent db'
unfolding apply_upsert_file
apply_upsert_file-IsConsistent serde clock db extracted revision workspace_id db' h e =
    let (db₁, written, e₁) = ok_of_bind (upsert_file_row clock db extracted) _ e in
    let plan = diff_symbols (fetch_existing_symbols db₁ extracted.file) extracted.symbols in
    let ((db₂, ids), run, e₂) =
      ok_of_bind (apply_symbols_and_edges serde db₁ plan extracted revision workspace_id) _ e₁ in
    IsIndexed-same [] db₂ db'
      (apply_satellites-SameIndex serde clock plan ids extracted workspace_id db₂ db' e₂)
      (apply_symbols_and_edges-IsConsistent serde db₁ plan extracted revision workspace_id db₂ ids
        (IsIndexed-same [] db db₁ (upsert_file_row-SameIndex clock extracted db db₁ written) h) run)

pub record_parse_error-SameIndex :
    (clock : Result ℕ) (db : Database) (path : String) (language : Language) (detail : String)
    → (db' : Database) → record_parse_error clock db path language detail ≡ ok db'
    → SameIndex db db'
unfolding record_parse_error
record_parse_error-SameIndex clock db path language detail db' e =
    let (now, _, e₁) = ok_of_bind clock _ e in
    let (existing, _, done) = ok_of_bind (get_file db path) _ e₁ in
    upsert_file-SameIndex db _ db' done

apply_deletes-symbols :
    (ids : List ℕ) (db : Database) (s : SymbolRow)
    → In s (apply_deletes db ids).symbols ↔ (In s db.symbols × (In s.id ids → ⊥))
unfolding apply_deletes
apply_deletes-symbols [] db s = ((λ h. (h, λ none_left. none_left)), λ h. h.0)
apply_deletes-symbols (id ∷ ids) db s =
    let rest = apply_deletes-symbols ids (delete_symbol db id) s in
    let kept = delete_symbol-symbols db id in
    (
      λ h.
          let (held, later) = rest.0 h in
          let (there, other) = without_sound id db.symbols s (subst (In s) kept held) in
          (there, λ doomed. elim doomed [ inl e ↦ other e | inr k ↦ later k ]),
      λ h. rest.1 (
        subst (In s) (inverse kept) (without_complete id db.symbols s h.0 (λ e. h.1 (inl e))),
        λ k. h.1 (inr k),
      ),
    )

symbol_ids_of_file_iff :
    (symbols : List SymbolRow) (path : String) (id : ℕ)
    → In id (symbol_ids_of_file symbols path)
      ↔ ((s : SymbolRow) × In s symbols × (s.file_path ≡ path) × (s.id ≡ id))
unfolding symbol_ids_of_file
symbol_ids_of_file_iff [] path id = ((λ h. absurd h), λ h. absurd h.1)
symbol_ids_of_file_iff (x ∷ symbols) path id =
    let rest = symbol_ids_of_file_iff symbols path id in
    elim (Bool-cases (x.file_path == path)) [
      | inl here ↦ rw here (
        λ h. elim h [
          | inl e ↦ (x, inl refl, (eq_iff x.file_path path).0 here, inverse e)
          | inr k ↦ let (s, held, in_file, at) = rest.0 k in (s, inr held, in_file, at)
        ],
        λ h. elim h.1 [
          | inl same ↦ inl (inverse h.3 ∙ ap (λ (s : SymbolRow). s.id) same)
          | inr held ↦ inr (rest.1 (h.0, held, h.2, h.3))
        ],
      )
      | inr there ↦ rw there (
        λ k. let (s, held, in_file, at) = rest.0 k in (s, inr held, in_file, at),
        λ h. elim h.1 [
          | inl same ↦ absurd (
              cc (
                there,
                (eq_iff x.file_path path).1
                    (inverse (ap (λ (s : SymbolRow). s.file_path) same) ∙ h.2),
              ))
          | inr held ↦ rest.1 (h.0, held, h.2, h.3)
        ],
      )
    ]

-- Deleting a file from a consistent index removes exactly the symbols of that file: those of every
-- other path stay, each with all its columns.
pub apply_delete_file_iff :
    (db : Database) (path : String) (s : SymbolRow)
    → IsConsistent db
    → In s (apply_delete_file db path).symbols ↔ (In s db.symbols × (s.file_path ≢ path))
unfolding apply_delete_file fetch_symbol_ids_by_file delete_file delete_edge_sites_by_file
apply_delete_file_iff db path s h =
    let ids = symbol_ids_of_file db.symbols path in
    let deleted = apply_deletes-symbols ids db s in
    let of_file = symbol_ids_of_file_iff db.symbols path s.id in
    (
      λ there.
          let (held, kept) = deleted.0 there in
          (held, λ in_file. kept (of_file.1 (s, held, in_file, refl))),
      λ k. deleted.1 (
        k.0,
        λ doomed.
            let (t, held, in_file, same) = of_file.0 doomed in
            k.1 (
              ap (λ (r : SymbolRow). r.file_path) (h.table.id_is_key s t k.0 held (inverse same))
              ∙ in_file),
      ),
    )

-- Deleting a file keeps a consistent index consistent.
pub apply_delete_file-IsConsistent :
    (db : Database) (path : String) → IsConsistent db → IsConsistent (apply_delete_file db path)
unfolding apply_delete_file
apply_delete_file-IsConsistent db path h =
    let db₁ = apply_deletes db (fetch_symbol_ids_by_file db path) in
    let db₂ = delete_edge_sites_by_file db₁ path in
    IsIndexed-same [] db₁ (delete_file db₂ path)
      (SameIndex-trans db₁ db₂ (delete_file db₂ path) (delete_edge_sites_by_file-SameIndex db₁ path)
        (delete_file-SameIndex db₂ path))
      (apply_deletes-IsIndexed [] (fetch_symbol_ids_by_file db path) db h)
