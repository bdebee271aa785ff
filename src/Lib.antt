-- ===== src/Lib.antt =====
-- Standardoc indexes the symbols of source files in an SQLite database that editors and agents
-- query. This library models the part that keeps the index: the intermediate representation of
-- an extraction, the storage layer, the pipeline that turns extractions into table writes with
-- the passes that resolve edges across files, languages and workspaces, and the query of the
-- graph that a viewer draws.
--
-- How the parts interact. A language provider extracts a file (Ir/Symbol.antt: `ExtractedFile`).
-- The watcher or a scan sends it as a command to the writer loop (Pipeline/Writer.antt), which
-- runs each command in one transaction. The batch writer compares the extraction with the rows
-- of the file (Pipeline/Diff.antt) and writes the difference: symbols and edges
-- (Pipeline/Batch/Apply.antt), then documents, call sites, foreign-function bindings and the
-- module lookup (Pipeline/Batch/Attach.antt). After a scan, passes over the whole index join C
-- prototypes with their definitions (Pipeline/CJoin.antt) and link foreign functions
-- (Pipeline/FfiResolve.antt). Between the extraction of a file and its command, edges to other
-- workspaces are resolved (Pipeline/CrossWorkspace.antt). Clients read the graph through
-- Query/Graph.antt.
--
-- Which file models what, by paths from the root of the repository:
-- - Ir/Kinds, Ir/Edge, Ir/Hash, Ir/Bridge, Ir/Ffi, Ir/Lookup, Ir/Symbol:
--   crates/standardoc-ir/src, by the files kinds.rs, edge.rs, hash.rs, bridge_kind.rs, ffi.rs,
--   lookup.rs, and symbol.rs with the other records of an extraction.
-- - Storage/Conv, Storage/Error, Storage/Retry, Storage/Symbols, Storage/Edges, Storage/Files
--   and Storage/Satellites: the files of crates/standardoc-core/src/storage of these names, the
--   last one for documents.rs, edge_sites.rs, call_sites.rs, symbol_ffi_binding.rs and
--   module_lookup.rs.
-- - Storage/Database: the tables of crates/standardoc-core/migrations/init_v0.sql that the
--   pipeline writes, as lists of rows with the next automatic ids.
-- - Pipeline/Diff, Pipeline/Batch, Pipeline/Writer: diff.rs, batch.rs and writer.rs of
--   crates/standardoc-core/src/pipeline, the last one with commands.rs and the scoping of paths
--   of peer_extract.rs.
-- - Pipeline/CJoin and Pipeline/FfiResolve: c_join.rs and ffi_resolve.rs of the same directory,
--   with Storage/DeclLocation for storage/symbol_decl_location.rs and Storage/FfiSides for the
--   reads of storage/symbol_ffi_binding.rs. The run_pass of ffi_resolve.rs is `run_ffi_pass`.
-- - Pipeline/CrossWorkspace: cross_workspace_post.rs of the same directory, with
--   Ir/CrossWorkspace for crates/standardoc-ir/src/cross_workspace.rs.
--   Pipeline/CrossWorkspace/Resolver and Storage/CrossWorkspace: cross_workspace_resolver.rs and
--   storage/cross_workspace.rs of crates/standardoc-core/src.
-- - Query/Rows, Query/Looks: what query/rows.rs and query.rs of crates/standardoc-core/src read
--   of edges, and their tests for names of tests. Query/Graph: query/graph.rs there.
-- - Query/Similarity: query/similarity.rs there, without `score`.
-- - Storage/Index: the invariant of the tables `symbols` and `edges`, and that each write keeps
--   it.
-- - Base: what the modules share. Files named Examples hold tests and instances of the results.
-- A definition has the name of the function that it models; a helper beside it is a part of that
-- function.
--
-- State and effects. An SQL statement is a function on the list of rows: `ON CONFLICT DO UPDATE`
-- replaces the row of the key, `ON DELETE CASCADE` filters the tables that refer to it, and a
-- foreign key that fails is an error. A transaction is the result of its statements: with an
-- error the database is the one before. The passes after a scan run outside a transaction, so
-- their result has the database that an error leaves. Rows are read in the order of their ids
-- where the statement has no order of its own, and maps are walked in the order in which their
-- keys appeared. The clock and the encoders of serde_json and bincode are parameters, as are the
-- operator LIKE of SQLite, the list of projects, and the Unicode tests and cases of characters.
--
-- Bounds and fuel. 32-bit scope indexes wrap (`% 2 ^ 32`), revisions saturate at 2 ^ 64 - 1, and
-- columns clamp at the largest 64-bit integer. `resolve_from` runs on as much fuel as there are
-- scopes and one more: in a well-formed table a parent has a smaller index, so the walk ends
-- before. `list_pages` runs on as many rounds as names are wanted, and each round adds one at
-- least. `retry_from` runs on one more than the length of the schedule, which each retry
-- shortens.
--
-- Not modelled: failures of SQLite itself (a full disk, a broken connection), the full-text
-- index and its triggers, migrations, locks, the other queries and passes, the language
-- providers, the servers and the command line. A hash is kept as its 64 hexadecimal digits.
pub mod Base
pub mod Ir
pub mod Storage
pub mod Pipeline
pub mod Query
