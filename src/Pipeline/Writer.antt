-- ===== src/Pipeline/Writer.antt =====
-- crates/standardoc-core/src/pipeline/writer.rs: the loop that owns all writes, with the commands of
-- commands.rs and the path scoping of peer_extract.rs.
pub mod Loop
pub mod Peers
use standardoc.Base.{
  String, ℕ, Bool, true, false, Option, none, some, List, [], ◌∷◌, ◌+◌, ◌-◌, ◌^◌, map, leb, ◌==◌,
  if◌then◌else◌,
}
use standardoc.Base.Text.{append}
use standardoc.Ir.Kinds.{Language}
use standardoc.Ir.Edge.{Site, RawEdge}
use standardoc.Ir.Symbol.{RawSymbol, SymbolLocation, RawCallSite, ExtractedFile}
use standardoc.Storage.Error.{Result, ok, err, StorageError, ◌>>=◌}
use standardoc.Storage.Serde.{Serde}
use standardoc.Storage.Database.{Database}
use standardoc.Pipeline.Batch.{apply_upsert_file, apply_delete_file, record_parse_error}

pub data IngestCommand : Type 0 where
  upsert_file : String → ExtractedFile → IngestCommand
  delete_file : String → IngestCommand
  parse_error : String → Language → String → IngestCommand
  upsert_peer_file : String → String → ExtractedFile → IngestCommand
  delete_peer_file : String → String → IngestCommand
  peer_parse_error : String → String → Language → String → IngestCommand
  rescan_from_scratch : IngestCommand

abbrev pub primary_workspace_id : String
primary_workspace_id = "primary"

unfoldable pub peer_path : String → String → String
unfolding append
peer_path workspace_id rel =
    if workspace_id == primary_workspace_id
    then rel
    else append "ws:" (append workspace_id (append ":" rel))

abbrev pub scope_symbol : String → RawSymbol → RawSymbol
scope_symbol scoped sym =
    let location = sym.location in record sym { location = record location { file = scoped } }

abbrev pub scope_edge : String → RawEdge → RawEdge
scope_edge scoped edge = record edge {
  sites = map (λ (s : Site). record s { file = scoped }) edge.sites;
}

abbrev pub scope_call_site : String → RawCallSite → RawCallSite
scope_call_site scoped cs = let site = cs.site in record cs { site = record site { file = scoped } }

unfoldable pub scope_extracted_paths : ExtractedFile → String → ExtractedFile
unfolding peer_path
scope_extracted_paths extracted workspace_id =
    let scoped = peer_path workspace_id extracted.file in
    if workspace_id == primary_workspace_id then extracted else record extracted {
      file = scoped;
      symbols = map (scope_symbol scoped) extracted.symbols;
      edges = map (scope_edge scoped) extracted.edges;
      call_sites = map (scope_call_site scoped) extracted.call_sites;
    }

unfoldable pub dispatch : Serde → Result ℕ → Database → IngestCommand → ℕ → Result Database
unfolding apply_upsert_file apply_delete_file record_parse_error scope_extracted_paths peer_path
dispatch serde clock db (IngestCommand.upsert_file _ extracted) revision =
    apply_upsert_file serde clock db extracted revision primary_workspace_id
dispatch serde clock db (IngestCommand.delete_file path) revision = ok (apply_delete_file db path)
dispatch serde clock db (IngestCommand.parse_error path language detail) revision =
    record_parse_error clock db path language detail
dispatch serde clock db (IngestCommand.upsert_peer_file workspace_id _ extracted) revision =
    apply_upsert_file serde clock db (scope_extracted_paths extracted workspace_id) revision
      workspace_id
dispatch serde clock db (IngestCommand.delete_peer_file workspace_id path) revision =
    ok (apply_delete_file db (peer_path workspace_id path))
dispatch serde clock db (IngestCommand.peer_parse_error workspace_id path language detail)
      revision =
    record_parse_error clock db (peer_path workspace_id path) language detail
dispatch serde clock db IngestCommand.rescan_from_scratch revision =
    err StorageError.rescan_in_progress

abbrev pub u64_max : ℕ
u64_max = 2 ^ 64 - 1

abbrev pub saturating_suc : ℕ → ℕ
saturating_suc n = if leb u64_max n then u64_max else n + 1

-- One command in one immediate transaction: either all its writes and the next revision are
-- committed, or the database is as before. `none` for the pool is a pool that was swapped out.
unfoldable pub process_command :
    Serde → Result ℕ → Option Database → IngestCommand → Option Database × Result (Unit {0})
unfolding dispatch
process_command serde clock none cmd = (none, err StorageError.rescan_in_progress)
process_command serde clock (some db) cmd =
    let next_revision = saturating_suc db.revision in
    elim (dispatch serde clock db cmd next_revision) [
      | ok db' ↦ (some (record db' { revision = next_revision }), ok tt)
      | err e ↦ (some db, err e)
    ]

-- The loop over the commands received; errors are logged, and the loop goes on.
unfoldable pub writer_loop :
    Serde → Result ℕ → Option Database → List IngestCommand → Option Database
unfolding process_command
writer_loop serde clock pool [] = pool
writer_loop serde clock pool (cmd ∷ commands) =
    writer_loop serde clock (process_command serde clock pool cmd).0 commands
