-- ===== src/Storage/Retry/Examples.antt =====
-- Retrying at examples.
use standardoc.Base.{ℕ, zero, suc, ◌≡◌, ◌≤◌, refl, true, false, some, [], ◌∷◌}
use standardoc.Storage.Error.{Result, ok, err, StorageError}
use standardoc.Storage.Retry.{is_transient, is_transient_message, Outcome, retry_with_backoff}
use standardoc.Storage.Retry.Backoff.{IsFaithful, total, retry_with_backoff-IsFaithful}

-- Two transient failures, then a value.
abbrev third_time : ℕ → Result ℕ
third_time zero = err (StorageError.lock_held "/tmp/x")
third_time (suc zero) = err (StorageError.pool "Timed out waiting for connection")
third_time (suc (suc n)) = ok 7

busy_message : is_transient_message "Database is locked" ≡ true
unfolding is_transient_message
busy_message = refl

other_message : is_transient_message "disk full" ≡ false
unfolding is_transient_message
other_message = refl

retried :
    retry_with_backoff third_time
    ≡ some (record { result = ok 7; calls = 3; slept = 50 ∷ 100 ∷ [] })
unfolding retry_with_backoff is_transient
retried = refl

retry_with_backoff-IsFaithful_example :
    (o : Outcome ℕ) × (retry_with_backoff third_time ≡ some o)
    × IsFaithful third_time o
    × (total o.slept ≤ 1550)
retry_with_backoff-IsFaithful_example = retry_with_backoff-IsFaithful third_time
