-- ===== src/Pipeline/Batch/ParseError.antt =====
-- A file that no longer parses keeps what the last good scan stored.
use standardoc.Base.{String, ℕ, ◌≡◌, subst, sym as inverse, ◌∙◌, some}
use standardoc.Ir.Kinds.{Language}
use standardoc.Storage.Error.{Result, ok, ok_of_bind, ok-injective}
use standardoc.Storage.Database.{Database}
use standardoc.Storage.Files.{FileInput, upsert_file, get_file}
use standardoc.Storage.Files.RoundTrip.{get_file-upsert_file, get_file-path, get_file-hash}
use standardoc.Pipeline.Batch.{parse_error_row, record_parse_error}

-- After a parse error in a file that is stored, its hash, size and language are those of the last
-- good scan, and only the error and the time of the scan are new.
pub get_file-record_parse_error :
    (clock : Result ℕ) (db : Database) (path : String) (language : Language) (detail : String)
    → (prev : FileInput) (db' : Database) → get_file db path ≡ ok (some prev)
    → record_parse_error clock db path language detail ≡ ok db'
    → (now : ℕ) × (clock ≡ ok now)
      × (get_file db' path
          ≡ ok (some (record prev { last_scan_error = some detail; last_scanned = now })))
unfolding record_parse_error parse_error_row
get_file-record_parse_error clock db path language detail prev db' stored e =
    let (now, ticked, e₁) = ok_of_bind clock _ e in
    let (existing, read, done) = ok_of_bind (get_file db path) _ e₁ in
    let same : existing ≡ some prev = ok-injective _ _ (inverse read ∙ stored) in
    let done' =
      subst (λ o. upsert_file db (parse_error_row o now path language detail) ≡ ok db') same done in
    (
      now,
      ticked,
      subst
          (λ p.
            get_file db' p
            ≡ ok (some (record prev { last_scan_error = some detail; last_scanned = now })))
          (get_file-path db path prev stored)
          (get_file-upsert_file db
            (record prev { last_scan_error = some detail; last_scanned = now }) db'
            (get_file-hash db path prev stored) done'),
    )
