-- ===== src/Storage/Error.antt =====
-- crates/standardoc-core/src/storage/error.rs. Errors of other crates are kept as what the program
-- reads of them: the codes and the message of a `rusqlite::Error`, the message of an `r2d2::Error`.
-- A formatted detail is kept as its fixed part and the value that it shows.
use standardoc.Base.{String, ℕ, ◌≡◌, refl, ◌⊎◌, inl, inr}

pub data ErrorCode : Type 0 where
  database_busy database_locked other_code : ErrorCode

pub data RusqliteError : Type 0 where
  sqlite_failure : ErrorCode → ℕ → String → RusqliteError
  other_error : String → RusqliteError

pub data StorageError : Type 0 where
  sqlite : RusqliteError → StorageError
  pool : String → StorageError
  migration_failed : ℕ → ℕ → RusqliteError → StorageError
  schema_version_too_new : ℕ → ℕ → StorageError
  lock_held : String → StorageError
  read_only_missing_database : String → StorageError
  io : String → StorageError
  json : String → StorageError
  check_constraint_violated : String → StorageError
  invalid_schema_metadata : String → String → StorageError
  invalid_stored_data : String → String → StorageError
  bridge_kind_invalid : String → StorageError
  fts_corrupted : String → StorageError
  fts_count_mismatch : ℕ → ℕ → StorageError
  rescan_in_progress : StorageError

-- `Result<T, StorageError>`
pub data Result (A : Type 0) : Type 0 where
  ok : A → Result A
  err : StorageError → Result A

infixl 5 ◌>>=◌
-- The operator `?`: an error ends the chain.
abbrev pub ◌>>=◌ : {A B : Type 0} → Result A → (A → Result B) → Result B
err stopped >>= next = err stopped
ok value >>= next = next value

infixl 5 ◌>>◌
-- `?;`, where the value is not used
abbrev pub ◌>>◌ : {B : Type 0} → Result (Unit {0}) → Result B → Result B
attempt >> next = attempt >>= (λ done. next)

-- What a chain that succeeds has done: its first step has a value, and the rest succeeds with it.
abbrev pub Succeeds : {A B : Type 0} → Result A → (A → Result B) → B → Type 0
Succeeds {A} first rest result = (value : A) × (first ≡ ok value) × (rest value ≡ ok result)

pub ok_of_bind :
    {A B : Type 0} (first : Result A) (rest : A → Result B) {result : B}
    → first >>= rest ≡ ok result
    → Succeeds first rest result
ok_of_bind (err stopped) rest chain = absurd (cc)
ok_of_bind (ok value) rest chain = (value, refl, chain)

pub Result-cases :
    {A : Type 0} (r : Result A) → ((a : A) × (r ≡ ok a)) ⊎ ((e : StorageError) × (r ≡ err e))
Result-cases (ok a) = inl (a, refl)
Result-cases (err e) = inr (e, refl)

pub ok-injective : {A : Type 0} (a b : A) → ok a ≡ ok b → a ≡ b
ok-injective a b h = cc h
