-- ===== src/Pipeline/Examples/Peers.antt =====
-- Tests of the commands for files of peer workspaces.
use standardoc.Base.{String, ◌≡◌, ◌≢◌, ◌↔◌, ℕ, List, refl, some, [], ◌∷◌, In}
use standardoc.Storage.Error.{ok}
use standardoc.Storage.Database.{Database, SymbolRow}
use standardoc.Storage.Symbols.{upsert_row}
use standardoc.Storage.Index.{IsConsistent}
use standardoc.Pipeline.Writer.{IngestCommand, peer_path, process_command}
use standardoc.Pipeline.Writer.Peers.{process_command-delete_peer_file}
use standardoc.Pipeline.Examples.{plain, symbol_row, file_row}
use standardoc.Pipeline.Examples.Joins.{with_rows, bare-IsConsistent, next_row}

abbrev own_row : SymbolRow
own_row = symbol_row 1 "f" "a::f" "b.rs" 1 "h1" 1

abbrev peer_row : SymbolRow
peer_row = record (symbol_row 2 "g" "b::g" "ws:lib:b.rs" 5 "h2" 2) { workspace_id = "lib" }

abbrev with_files : List SymbolRow → ℕ → Database
with_files symbols next = record (with_rows symbols next) {
  files = file_row "b.rs" ∷ file_row "ws:lib:b.rs" ∷ [];
}

-- A file of the primary workspace, and one of the same path in a peer workspace.
abbrev with_peer : Database
with_peer = with_files (own_row ∷ peer_row ∷ []) 3

none-IsConsistent : IsConsistent (with_files [] 1)
none-IsConsistent = record { table = bare-IsConsistent.table; edges = bare-IsConsistent.edges }

with_peer-IsConsistent : IsConsistent with_peer
unfolding upsert_row
with_peer-IsConsistent =
    next_row (with_files (own_row ∷ []) 2) peer_row with_peer 2 refl refl (
      next_row (with_files [] 1) own_row (with_files (own_row ∷ []) 2) 1 refl refl
        none-IsConsistent)

peer_gone :
    process_command plain (ok 7) (some with_peer) (IngestCommand.delete_peer_file "lib" "b.rs") ≡ (
      some (record (with_rows (own_row ∷ []) 3) { files = file_row "b.rs" ∷ []; revision = 1 }),
      ok tt,
    )
unfolding process_command
peer_gone = refl

process_command-delete_peer_file_example :
    (db' : Database) × (process_command plain
        (ok 7)
        (some with_peer)
        (IngestCommand.delete_peer_file "lib" "b.rs")
      ≡ (some db', ok tt))
    × ((s : SymbolRow)
        → In s db'.symbols ↔ (In s with_peer.symbols × (s.file_path ≢ peer_path "lib" "b.rs")))
    × ((s : SymbolRow) (other : String)
        → In s with_peer.symbols
        → s.file_path ≡ peer_path "lib" other
        → other ≢ "b.rs"
        → In s db'.symbols)
process_command-delete_peer_file_example =
    process_command-delete_peer_file plain (ok 7) with_peer "lib" "b.rs" with_peer-IsConsistent
