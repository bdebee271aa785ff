-- ===== src/Storage/Files/RoundTrip.antt =====
-- What `get_file` reads after `upsert_file`.
use standardoc.Base.{
  String, ℕ, ◌≡◌, refl, sym as inverse, ap, subst, ◌∙◌, Option, none, some, List, [], ◌∷◌, inl, inr,
  leb, ◌==◌, eq_iff, eq_refl, Bool-cases, Option-cases,
}
use standardoc.Ir.Hash.{from_hex, from_hex_idem}
use standardoc.Storage.Error.{ok, ok_of_bind, ok-injective}
use standardoc.Storage.Conv.{language_to_sql_text, language_from_sql_text}
use standardoc.Storage.Conv.RoundTrip.{language-IsCodec}
use standardoc.Storage.Database.{Database, FileRow, i64_max, file_by_path}
use standardoc.Storage.Index.{find-some}
use standardoc.Storage.Files.{
  FileInput, put_file, upsert_file, parse_hash, build_file_input, get_file,
}

-- The row of a path keeps its project.
put_file_self :
    (files : List FileRow) (new : FileRow)
    → (project : Option ℕ) × (file_by_path (put_file files new) new.path
        ≡ some (record new { project_id = project }))
unfolding put_file file_by_path
put_file_self [] new = (new.project_id, rw (eq_refl new.path) refl)
put_file_self (f ∷ files) new = elim (Bool-cases (f.path == new.path)) [
  | inl same ↦ (f.project_id, rw (put_file, file_by_path, same, eq_refl new.path) refl)
  | inr other ↦
      let (project, found) = put_file_self files new in
      (project, rw (put_file, other) (rw (file_by_path, other) found))
]

-- What `upsert_file` writes for a path is what `get_file` reads for it, if the hash is the text that
-- a hash is written as.
pub get_file-upsert_file :
    (db : Database) (file : FileInput) (db' : Database)
    → from_hex file.content_hash ≡ some file.content_hash
    → upsert_file db file ≡ ok db'
    → get_file db' file.path ≡ ok (some file)
unfolding upsert_file get_file build_file_input parse_hash
get_file-upsert_file db file db' hashed e = elim (Bool-cases (leb file.byte_size i64_max)) [
  | inr too_large ↦ absurd (cc (rw (upsert_file, too_large) at e))
  | inl fits ↦
      let (project, found) = put_file_self db.files (record {
        path = file.path;
        content_hash = file.content_hash;
        language = language_to_sql_text file.language;
        last_scanned = file.last_scanned;
        byte_size = file.byte_size;
        last_scan_error = file.last_scan_error;
        is_external = file.is_external;
        project_id = none;
      }) in
      subst (λ (d : Database). get_file d file.path ≡ ok (some file))
        (ok-injective _ _ (rw (upsert_file, fits) at e))
        (rw
          (
            get_file,
            found,
            build_file_input,
            parse_hash,
            hashed,
            language-IsCodec.from-to file.language,
          )
          refl)
]

pub get_file-path :
    (db : Database) (path : String) (file : FileInput)
    → get_file db path ≡ ok (some file)
    → file.path ≡ path
unfolding get_file file_by_path build_file_input
get_file-path db path file e = elim (Option-cases (file_by_path db.files path)) [
  | inl missing ↦ absurd (cc (rw (get_file, missing) at e))
  | inr (f, found) ↦
      let (input, built, e₁) = ok_of_bind (build_file_input f) _ (rw (get_file, found) at e) in
      let (hash, _, e₁') = ok_of_bind (parse_hash f.content_hash) _ built in
      let (language, _, e₂) = ok_of_bind (language_from_sql_text f.language) _ e₁' in
      let (_, tested) = find-some (λ (r : FileRow). r.path == path) db.files f found in
      let same : input ≡ file = cc (ok-injective _ _ e₁) in
      inverse (ap (λ (i : FileInput). i.path) (ok-injective _ _ e₂ ∙ same))
      ∙ (eq_iff f.path path).0 tested
]

parse_hash-from_hex : (s t : String) → parse_hash s ≡ ok t → from_hex s ≡ some t
unfolding parse_hash
parse_hash-from_hex s t h = elim (Option-cases (from_hex s)) [
  | inl e ↦ absurd (cc (rw (parse_hash, e) at h))
  | inr (u, e) ↦ e ∙ ap some (ok-injective _ _ (rw (parse_hash, e) at h))
]

-- What was read has a hash that reads as itself.
pub get_file-hash :
    (db : Database) (path : String) (file : FileInput)
    → get_file db path ≡ ok (some file)
    → from_hex file.content_hash ≡ some file.content_hash
unfolding get_file build_file_input
get_file-hash db path file e = elim (Option-cases (file_by_path db.files path)) [
  | inl missing ↦ absurd (cc (rw (get_file, missing) at e))
  | inr (f, found) ↦
      let (input, built, e₁) = ok_of_bind (build_file_input f) _ (rw (get_file, found) at e) in
      let (hash, parsed, e₂) = ok_of_bind (parse_hash f.content_hash) _ built in
      let (language, _, e₃) = ok_of_bind (language_from_sql_text f.language) _ e₂ in
      let same : input ≡ file = cc (ok-injective _ _ e₁) in
      subst (λ h. from_hex h ≡ some h)
        (ap (λ (i : FileInput). i.content_hash) (ok-injective _ _ e₃ ∙ same))
        (from_hex_idem f.content_hash hash (parse_hash-from_hex f.content_hash hash parsed))
]
