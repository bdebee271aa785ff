-- ===== src/Storage/Retry.antt =====
-- crates/standardoc-core/src/storage/retry.rs: opening the storage again after a transient error.
pub mod Backoff
mod Examples
use Prim.Native.Char.{code}
use Prim.Native.String
use standardoc.Base.{
  ℕ, zero, suc, ◌+◌, String, Bool, true, false, not, ◌&&◌, ◌||◌, Option, none, some, List, [], ◌∷◌,
  ◌++◌, length, get_elem?, leb, eqb, if◌then◌else◌,
}
use standardoc.Storage.Error.{Result, ok, err, StorageError, RusqliteError, ErrorCode}

abbrev pub backoff_schedule_ms : List ℕ
backoff_schedule_ms = 50 ∷ 100 ∷ 200 ∷ 400 ∷ 800 ∷ []

-- The constant of SQLite that the comment of the source gives.
abbrev pub sqlite_protocol : ℕ
sqlite_protocol = 15

-- `to_ascii_lowercase` on a code point
abbrev pub to_ascii_lowercase : ℕ → ℕ
to_ascii_lowercase c = if leb b'A' c && leb c b'Z' then c + 32 else c

-- The code points of a text, lowered.
unfoldable pub lowered : String → List ℕ
lowered String.[] = []
lowered (String.◌∷◌ c s) = to_ascii_lowercase (code c) ∷ lowered s

abbrev pub codes : String → List ℕ
codes String.[] = []
codes (String.◌∷◌ c s) = code c ∷ codes s

unfoldable pub starts_with : List ℕ → List ℕ → Bool
starts_with s [] = true
starts_with [] (c ∷ p) = false
starts_with (d ∷ s) (c ∷ p) = eqb c d && starts_with s p

unfoldable pub contains : List ℕ → List ℕ → Bool
unfolding starts_with
contains [] p = starts_with [] p
contains (d ∷ s) p = starts_with (d ∷ s) p || contains s p

unfoldable pub is_transient_message : String → Bool
unfolding lowered contains
is_transient_message msg =
    let text = lowered msg in
    contains text (codes "locking protocol")
    || contains text (codes "database is locked")
    || contains text (codes "database is busy")
    || contains text (codes "timed out waiting for connection")

abbrev pub is_busy_or_locked : ErrorCode → Bool
is_busy_or_locked ErrorCode.database_busy = true
is_busy_or_locked ErrorCode.database_locked = true
is_busy_or_locked ErrorCode.other_code = false

unfoldable pub is_transient_sqlite : RusqliteError → Bool
unfolding is_transient_message
is_transient_sqlite (RusqliteError.sqlite_failure code extended_code message) =
    if is_busy_or_locked code
    then true
    else if eqb extended_code sqlite_protocol
    then true
    else is_transient_message message
is_transient_sqlite (RusqliteError.other_error message) = is_transient_message message

unfoldable pub is_transient : StorageError → Bool
unfolding is_transient_message is_transient_sqlite
is_transient (StorageError.lock_held path) = true
is_transient (StorageError.pool message) = is_transient_message message
is_transient (StorageError.sqlite inner) = is_transient_sqlite inner
is_transient _ = false

-- What `retry_with_backoff` did: its result, the calls of the closure, and the sleeps between them.
pub record Outcome (T : Type 0) : Type 0 where
  pub result : Result T
  pub calls : ℕ
  pub slept : List ℕ

-- `BACKOFF_SCHEDULE_MS[idx]`, which the loop reads below the length only.
abbrev pub delay_at : ℕ → ℕ
delay_at idx = elim (get_elem? backoff_schedule_ms idx) [ none ↦ 0 | some delay ↦ delay ]

-- The loop; `f n` is what the closure returns at its call number `n`, from 0. In the loop `idx` is
-- also the number of the call. `none` means that the fuel ran out.
unfoldable pub retry_from : {T : Type 0} → ℕ → (ℕ → Result T) → ℕ → List ℕ → Option (Outcome T)
retry_from zero f idx slept = none
retry_from (suc fuel) f idx slept = elim (f idx) [
  | ok value ↦ some (record { result = ok value; calls = suc idx; slept = slept })
  | err e ↦ elim (not (is_transient e) || leb (length backoff_schedule_ms) idx) [
    | true ↦ some (record { result = err e; calls = suc idx; slept = slept })
    | false ↦ retry_from fuel f (suc idx) (slept ++ delay_at idx ∷ [])
  ]
]

unfoldable pub retry_with_backoff : {T : Type 0} → (ℕ → Result T) → Option (Outcome T)
unfolding retry_from
retry_with_backoff f = retry_from (suc (length backoff_schedule_ms)) f 0 []
