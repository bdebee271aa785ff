-- ===== src/Pipeline/Writer/Peers.antt =====
-- The paths under which the files of peer workspaces are stored.
use standardoc.Base.{
  String, ℕ, ◌≡◌, ◌≢◌, ◌↔◌, In, refl, sym as inverse, ap, ◌∙◌, some, inl, inr, true, ◌==◌,
  Bool-cases, eqb, eqb_iff,
}
use Prim.Native.Char.{code}
use standardoc.Base.Text.{append, strip_prefix}
use standardoc.Storage.Error.{Result, ok}
use standardoc.Storage.Serde.{Serde}
use standardoc.Storage.Database.{Database, SymbolRow}
use standardoc.Storage.Index.{IsConsistent}
use standardoc.Pipeline.Batch.Files.{apply_delete_file_iff}
use standardoc.Pipeline.Writer.{
  IngestCommand, primary_workspace_id, peer_path, process_command, dispatch,
}

strip_prefix-append : (p s : String) → strip_prefix p (append p s) ≡ some s
unfolding strip_prefix append
strip_prefix-append String.[] s = refl
strip_prefix-append (String.◌∷◌ c p) s =
    let tested : eqb (code c) (code c) ≡ true = (eqb_iff (code c) (code c)).1 refl in
    rw (strip_prefix, append, tested) (strip_prefix-append p s)

append_injective : (p s t : String) → append p s ≡ append p t → s ≡ t
append_injective p s t h =
    let both : some s ≡ some t =
      inverse (strip_prefix-append p s) ∙ ap (strip_prefix p) h ∙ strip_prefix-append p t in
    cc both

peer_path_injective : (w a b : String) → peer_path w a ≡ peer_path w b → a ≡ b
unfolding peer_path
peer_path_injective w a b h = elim (Bool-cases (w == primary_workspace_id)) [
  | inl e ↦ rw (peer_path, e) at h
  | inr e ↦ append_injective ":" a b (
      append_injective w (append ":" a) (append ":" b) (
        append_injective "ws:" (append w (append ":" a)) (append w (append ":" b))
          (rw (peer_path, e) at h)))
]

-- A command to delete a file of a workspace succeeds on a consistent index and removes exactly the
-- symbols that are stored under the path of that file; so of the files of the workspace, all others
-- keep their symbols.
pub process_command-delete_peer_file :
    (serde : Serde) (clock : Result ℕ) (db : Database) (workspace_id path : String)
    → IsConsistent db
    → (db' : Database) × (process_command serde clock
          (some db)
          (IngestCommand.delete_peer_file workspace_id path)
        ≡ (some db', ok tt))
      × ((s : SymbolRow)
          → In s db'.symbols ↔ (In s db.symbols × (s.file_path ≢ peer_path workspace_id path)))
      × ((s : SymbolRow) (other : String)
          → In s db.symbols
          → s.file_path ≡ peer_path workspace_id other
          → other ≢ path
          → In s db'.symbols)
unfolding process_command dispatch
process_command-delete_peer_file serde clock db workspace_id path h =
    let removed = λ (s : SymbolRow). apply_delete_file_iff db (peer_path workspace_id path) s h in
    (
      _,
      refl,
      removed,
      λ s other held at apart.
          (removed s).1
            (held, λ same. apart (peer_path_injective workspace_id other path (inverse at ∙ same))),
    )
