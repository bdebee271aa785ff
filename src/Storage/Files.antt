-- ===== src/Storage/Files.antt =====
-- crates/standardoc-core/src/storage/files.rs.
pub mod RoundTrip
use standardoc.Base.{
  String, ℕ, Bool, Option, none, some, List, [], ◌∷◌, ◌++◌, keep_if, leb, not, ◌==◌, if◌then◌else◌,
}
use standardoc.Ir.Kinds.{Language}
use standardoc.Ir.Hash.{Blake3Hash, from_hex}
use standardoc.Storage.Error.{Result, ok, err, StorageError, ◌>>=◌}
use standardoc.Storage.Conv.{language_to_sql_text, language_from_sql_text}
use standardoc.Storage.Database.{Database, FileRow, SymbolRow, CallSiteRow, i64_max, file_by_path}

pub record FileInput : Type 0 where
  pub path : String
  pub content_hash : Blake3Hash
  pub language : Language
  pub byte_size : ℕ
  pub last_scanned : ℕ
  pub last_scan_error : Option String
  pub is_external : Bool

-- `ON CONFLICT(path) DO UPDATE` leaves `project_id` alone.
unfoldable pub put_file : List FileRow → FileRow → List FileRow
put_file [] new = new ∷ []
put_file (f ∷ files) new =
    let rest = put_file files new in
    if f.path == new.path then record new { project_id = f.project_id } ∷ files else f ∷ rest

unfoldable pub upsert_file : Database → FileInput → Result Database
unfolding put_file language_to_sql_text
upsert_file db file =
    if leb file.byte_size i64_max
    then ok (record db {
      files = put_file db.files (record {
        path = file.path;
        content_hash = file.content_hash;
        language = language_to_sql_text file.language;
        last_scanned = file.last_scanned;
        byte_size = file.byte_size;
        last_scan_error = file.last_scan_error;
        is_external = file.is_external;
        project_id = none;
      });
    })
    else err (StorageError.invalid_stored_data "byte_size exceeds i64::MAX" file.path)

-- `Blake3Hash::from_hex(…).map_err(…)`
unfoldable pub parse_hash : String → Result Blake3Hash
unfolding from_hex
parse_hash text = elim (from_hex text) [
  | none ↦ err (StorageError.invalid_stored_data "files.content_hash" text)
  | some hash ↦ ok hash
]

unfoldable pub build_file_input : FileRow → Result FileInput
unfolding parse_hash language_from_sql_text
build_file_input f = do
  content_hash ← parse_hash f.content_hash
  language ← language_from_sql_text f.language
  ok (record {
    path = f.path;
    content_hash = content_hash;
    language = language;
    byte_size = f.byte_size;
    last_scanned = f.last_scanned;
    last_scan_error = f.last_scan_error;
    is_external = f.is_external;
  })

-- `raw.map(build_file_input).transpose()`
unfoldable pub get_file : Database → String → Result (Option FileInput)
unfolding file_by_path build_file_input
get_file db path = elim (file_by_path db.files path) [
  | none ↦ ok none
  | some f ↦ (do input ← build_file_input f; ok (some input))
]

-- The DELETE, with the cascade to `call_sites`. The cascade to `symbols` finds none left, since
-- the caller deletes them first.
unfoldable pub delete_file : Database → String → Database
delete_file db path = record db {
  files = keep_if (λ (f : FileRow). not (f.path == path)) db.files;
  call_sites = keep_if (λ (c : CallSiteRow). not (c.file_path == path)) db.call_sites;
}
