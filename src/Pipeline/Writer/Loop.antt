-- ===== src/Pipeline/Writer/Loop.antt =====
-- What holds of the database after any sequence of commands.
use standardoc.Base.{
  ℕ, ◌≡◌, ◌≤◌, refl, subst, Option, some, List, [], ◌∷◌, ◌⊎◌, inl, inr, ◌+◌, min, arith,
}
use standardoc.Storage.Error.{Result, ok, err, StorageError, ok-injective, Result-cases}
use standardoc.Storage.Serde.{Serde}
use standardoc.Storage.Database.{Database}
use standardoc.Storage.Index.{IsConsistent}
use standardoc.Storage.Index.Frame.{IsIndexed-same}
use standardoc.Pipeline.Batch.Files.{
  apply_upsert_file-IsConsistent, apply_delete_file-IsConsistent, record_parse_error-SameIndex,
}
use standardoc.Pipeline.Writer.{
  IngestCommand, primary_workspace_id, peer_path, scope_extracted_paths, dispatch, u64_max,
  saturating_suc, process_command, writer_loop,
}

module _ (serde : Serde) (clock : Result ℕ) where
  dispatch-IsConsistent :
      (db : Database) (cmd : IngestCommand) (revision : ℕ) (db' : Database)
      → IsConsistent db
      → dispatch serde clock db cmd revision ≡ ok db'
      → IsConsistent db'
  unfolding dispatch
  dispatch-IsConsistent db (IngestCommand.upsert_file path extracted) revision db' h e =
      apply_upsert_file-IsConsistent serde clock db extracted revision primary_workspace_id db' h e
  dispatch-IsConsistent db (IngestCommand.delete_file path) revision db' h e =
      subst IsConsistent (ok-injective _ _ e) (apply_delete_file-IsConsistent db path h)
  dispatch-IsConsistent db (IngestCommand.parse_error path language detail) revision db' h e =
      IsIndexed-same [] db db' (record_parse_error-SameIndex clock db path language detail db' e) h
  dispatch-IsConsistent db (IngestCommand.upsert_peer_file workspace_id path extracted) revision db'
        h e =
      apply_upsert_file-IsConsistent serde clock db (scope_extracted_paths extracted workspace_id)
        revision workspace_id db' h e
  dispatch-IsConsistent db (IngestCommand.delete_peer_file workspace_id path) revision db' h e =
      subst IsConsistent (ok-injective _ _ e)
        (apply_delete_file-IsConsistent db (peer_path workspace_id path) h)
  dispatch-IsConsistent db (IngestCommand.peer_parse_error workspace_id path language detail)
        revision db' h e =
      IsIndexed-same [] db db'
        (record_parse_error-SameIndex clock db (peer_path workspace_id path) language detail db' e)
        h
  dispatch-IsConsistent db IngestCommand.rescan_from_scratch revision db' h e = absurd (cc)

  -- One command: it fails and changes nothing, or it succeeds with the next revision.
  process_command-cases :
      (db : Database) (cmd : IngestCommand)
      → ((e : StorageError) × (process_command serde clock (some db) cmd ≡ (some db, err e)))
        ⊎ ((db' : Database) × (process_command serde clock (some db) cmd ≡ (some db', ok tt))
            × (db'.revision ≡ saturating_suc db.revision)
            × (IsConsistent db → IsConsistent db'))
  unfolding process_command
  process_command-cases db cmd =
      let next = saturating_suc db.revision in
      elim (Result-cases (dispatch serde clock db cmd next)) [
        | inr (e, failed) ↦ inl (e, rw (process_command, failed) refl)
        | inl (db', done) ↦ inr (
          record db' { revision = next },
          rw (process_command, done) refl,
          refl,
          λ h.
              let h' = dispatch-IsConsistent db cmd next db' h done in
              record { table = h'.table; edges = h'.edges },
        )
      ]

  abbrev count_ok : Result (Unit {0}) → ℕ → ℕ
  count_ok (ok u) n = n + 1
  count_ok (err e) n = n

  -- How many of the commands succeed, one after the other.
  unfoldable pub succeeded : Option Database → List IngestCommand → ℕ
  unfolding process_command
  succeeded pool [] = 0
  succeeded pool (cmd ∷ commands) =
      let outcome = process_command serde clock pool cmd in
      count_ok outcome.1 (succeeded outcome.0 commands)

  -- Whatever commands arrive, failing ones included, the loop keeps its database, the index in it
  -- stays consistent, and the revision counts the commands that succeed, up to its largest value.
  pub writer_loop-IsConsistent :
      (commands : List IngestCommand) (db : Database)
      → IsConsistent db
      → db.revision ≤ u64_max
      → (db' : Database) × (writer_loop serde clock (some db) commands ≡ some db')
        × IsConsistent db'
        × (db'.revision ≡ min u64_max (db.revision + succeeded (some db) commands))
  unfolding writer_loop succeeded
  writer_loop-IsConsistent [] db h bound = (db, refl, h, ground arith)
  writer_loop-IsConsistent (cmd ∷ commands) db h bound = elim (process_command-cases db cmd) [
    | inl (e, outcome) ↦ rw outcome (writer_loop-IsConsistent commands db h bound)
    | inr (db₁, outcome, next, keeps) ↦
        let (db₂, run, h₂, revision) =
          writer_loop-IsConsistent commands db₁ (keeps h) (ground (arith, next)) in
        rw outcome (db₂, run, h₂, ground (arith, next, revision))
  ]
