-- ===== src/Storage/Retry/Backoff.antt =====
-- `retry_with_backoff` ends within its schedule, and returns what the last call returned.
use standardoc.Base.{
  ℕ, zero, suc, ◌+◌, ◌≤◌, ◌<◌, ◌≡◌, refl, sym, subst, ◌∙◌, ◌⊎◌, inl, inr, true, false, not, ◌||◌,
  some, List, [], ◌∷◌, ◌++◌, length, leb, arith, Bool-cases,
}
use native.Mathlib.Decide.{dec_lt}
use standardoc.Storage.Error.{Result-cases, Result, ok, err, StorageError}
use standardoc.Storage.Retry.{
  backoff_schedule_ms, is_transient, Outcome, delay_at, retry_from, retry_with_backoff,
}

-- The first delays of the schedule.
abbrev pub delays : ℕ → List ℕ
delays zero = []
delays (suc n) = delays n ++ delay_at n ∷ []

abbrev pub total : List ℕ → ℕ
total [] = 0
total (d ∷ ds) = d + total ds

-- All sleeps together last 1.55 s at most.
total-delays-le : (n : ℕ) → n ≤ length backoff_schedule_ms → total (delays n) ≤ 1550
total-delays-le zero h = omega arith
total-delays-le (suc zero) h = omega arith
total-delays-le (suc (suc zero)) h = omega arith
total-delays-le (suc (suc (suc zero))) h = omega arith
total-delays-le (suc (suc (suc (suc zero)))) h = omega arith
total-delays-le (suc (suc (suc (suc (suc zero))))) h = omega arith
total-delays-le (suc (suc (suc (suc (suc (suc n)))))) h = absurd (omega arith)

-- What a run may have done: calls failed transiently but the last, whose result is returned, an
-- error only if it is permanent or the schedule is used up; the sleeps are those of the schedule.
pub record IsFaithful {T : Type 0} (f : ℕ → Result T) (o : Outcome T) : Type 0 where
  pub last : ℕ
  pub counted : o.calls ≡ suc last
  pub bounded : last ≤ length backoff_schedule_ms
  pub returned : o.result ≡ f last
  pub earlier : (i : ℕ) → i < last → (e : StorageError) × (f i ≡ err e) × (is_transient e ≡ true)
  pub gave_up :
      (e : StorageError)
      → f last ≡ err e
      → (is_transient e ≡ false) ⊎ (last ≡ length backoff_schedule_ms)
  pub slept : o.slept ≡ delays last

module _ {T : Type 0} (f : ℕ → Result T) where
  abbrev Failed : ℕ → Type 0
  Failed i = (e : StorageError) × (f i ≡ err e) × (is_transient e ≡ true)

  Failed-suc :
      (idx : ℕ) → ((i : ℕ) → i < idx → Failed i) → Failed idx → (i : ℕ) → i < suc idx → Failed i
  Failed-suc idx old new i h = elim (dec_lt i idx) [
    | yes below ↦ old i below
    | no above ↦ let same : idx ≡ i = omega arith in subst Failed same new
  ]

  module _ (fuel idx : ℕ) (sleeps : List ℕ) where
    retry_from-value :
        {value : T}
        → f idx ≡ ok value
        → retry_from (suc fuel) f idx sleeps
          ≡ some (record { result = ok value; calls = suc idx; slept = sleeps })
    unfolding retry_from
    retry_from-value e = rw (e, retry_from)

    retry_from-stop :
        {e : StorageError}
        → f idx ≡ err e
        → (not (is_transient e) || leb (length backoff_schedule_ms) idx) ≡ true
        → retry_from (suc fuel) f idx sleeps
          ≡ some (record { result = err e; calls = suc idx; slept = sleeps })
    unfolding retry_from
    retry_from-stop h stop = rw (h, stop, retry_from)

    retry_from-again :
        {e : StorageError}
        → f idx ≡ err e
        → (not (is_transient e) || leb (length backoff_schedule_ms) idx) ≡ false
        → retry_from (suc fuel) f idx sleeps
          ≡ retry_from fuel f (suc idx) (sleeps ++ delay_at idx ∷ [])
    unfolding retry_from
    retry_from-again h more = rw (h, more, retry_from)

  -- The run from a call that follows transient failures only.
  retry_from-IsFaithful :
      (fuel idx : ℕ)
      → idx + fuel ≡ suc (length backoff_schedule_ms)
      → idx ≤ length backoff_schedule_ms
      → ((i : ℕ) → i < idx → Failed i)
      → (o : Outcome T) × (retry_from fuel f idx (delays idx) ≡ some o) × IsFaithful f o
  retry_from-IsFaithful zero idx h small failed = absurd (omega arith)
  retry_from-IsFaithful (suc fuel) idx h small failed = elim (Result-cases (f idx)) [
    | inl (value, e) ↦ (
      _,
      retry_from-value fuel idx (delays idx) e,
      record {
        last = idx;
        counted = refl;
        bounded = small;
        returned = sym e;
        earlier = failed;
        gave_up = λ e' h'. absurd (cc);
        slept = refl;
      },
    )
    | inr (e, h') ↦
        elim (Bool-cases (not (is_transient e) || leb (length backoff_schedule_ms) idx)) [
          | inl stop ↦ (
            _,
            retry_from-stop fuel idx (delays idx) h' stop,
            record {
              last = idx;
              counted = refl;
              bounded = small;
              returned = sym h';
              earlier = failed;
              gave_up = λ e' h''.
                  let same : e ≡ e' = cc in
                  subst (λ x. (is_transient x ≡ false) ⊎ (idx ≡ length backoff_schedule_ms)) same
                    (ground arith);
              slept = refl;
            },
          )
          | inr more ↦
              let (o, ran, faithful) =
                retry_from-IsFaithful fuel (suc idx) (omega arith) (ground arith)
                  (Failed-suc idx failed (e, h', ground arith)) in
              (o, retry_from-again fuel idx (delays idx) h' more ∙ ran, faithful)
        ]
  ]

  -- Opening with backoff ends: after at most six calls, with the sleeps of the schedule between
  -- them and none behind the last, 1550 ms in all at most; it returns what its last call returned,
  -- every call before that one failed transiently, and an error is returned only if it is permanent
  -- or was the sixth.
  pub retry_with_backoff-IsFaithful :
      (o : Outcome T) × (retry_with_backoff f ≡ some o) × IsFaithful f o × (total o.slept ≤ 1550)
  unfolding retry_with_backoff
  retry_with_backoff-IsFaithful =
      let (o, ran, faithful) =
        retry_from-IsFaithful (suc (length backoff_schedule_ms)) 0 (omega arith) (omega arith)
          (λ i h. elim h [ ]) in
      (o, ran, faithful, rw faithful.slept (total-delays-le faithful.last faithful.bounded))
