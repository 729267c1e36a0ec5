-- ===== src/Notify/Retry/Schedule.antt =====
-- core/notifier/retry.py: how often an operation runs, and how long the loop sleeps in between.
use chain_indexer.Base.{
  ℕ, zero, suc, ◌+◌, ◌-◌, ◌<◌, ◌≡◌, refl, ap, true, false, List, [], ◌∷◌, arith, leb,
}
use chain_indexer.Notify.Retry.{
  Attempt, done, abort, error, Outcome, returned, aborted, exhausted, delay, attempts_from,
  retry_with_backoff,
}

-- The delays after the attempts from the given one on.
abbrev pub delays : ℕ → ℕ → ℕ → ℕ → List ℕ
delays base_delay factor attempt zero = []
delays base_delay factor attempt (suc n) =
    delay base_delay factor attempt ∷ delays base_delay factor (suc attempt) n

module _ {ℓ} {T : Type ℓ} (op : ℕ → Attempt T) (max_attempts base_delay factor : ℕ) where
  -- `n` attempts fail, from the given one on, and each may be retried.
  abbrev pub Errors : ℕ → ℕ → Type ℓ
  Errors attempt zero = Unit
  Errors attempt (suc n) = (op attempt ≡ error) × Errors (suc attempt) n

  -- The loop ends at the first attempt that does not fail, or at the last.
  pub data Ends (attempt left : ℕ) (outcome : Outcome T) (sleeps : List ℕ) : Type ℓ where
    answers :
        (failed : ℕ) (t : T)
        → Errors attempt failed
        → op (attempt + failed) ≡ done t
        → outcome ≡ returned t
        → failed < left
        → sleeps ≡ delays base_delay factor attempt failed
        → Ends attempt left outcome sleeps
    aborts :
        (failed : ℕ)
        → Errors attempt failed
        → op (attempt + failed) ≡ abort
        → outcome ≡ aborted
        → failed < left
        → sleeps ≡ delays base_delay factor attempt failed
        → Ends attempt left outcome sleeps
    gives_up :
        Errors attempt left
        → outcome ≡ exhausted max_attempts
        → sleeps ≡ delays base_delay factor attempt (left - 1)
        → Ends attempt left outcome sleeps

  shift :
      (attempt left : ℕ) (outcome : Outcome T) (sleeps : List ℕ)
      → op attempt ≡ error
      → Ends (suc attempt) (suc left) outcome sleeps
      → Ends attempt (suc (suc left)) outcome (delay base_delay factor attempt ∷ sleeps)
  shift attempt left outcome sleeps e (answers failed t errs d o lt s) =
      let at : suc attempt + failed ≡ attempt + suc failed = omega arith in
      answers (suc failed) t (e, errs) (rw at at d) o (omega arith)
        (ap (λ l. delay base_delay factor attempt ∷ l) s)
  shift attempt left outcome sleeps e (aborts failed errs d o lt s) =
      let at : suc attempt + failed ≡ attempt + suc failed = omega arith in
      aborts (suc failed) (e, errs) (rw at at d) o (omega arith)
        (ap (λ l. delay base_delay factor attempt ∷ l) s)
  shift attempt left outcome sleeps e (gives_up errs o s) =
      let n : suc (suc left) - 1 ≡ suc (suc left - 1) = omega arith in
      gives_up (e, errs) o (rw n (ap (λ l. delay base_delay factor attempt ∷ l) s))

  attempts_from-Ends :
      (left attempt : ℕ)
      → attempt + left ≡ suc max_attempts
      → Ends attempt left
          (attempts_from op max_attempts base_delay factor left attempt).0
          (attempts_from op max_attempts base_delay factor left attempt).1
  unfolding attempts_from
  attempts_from-Ends zero attempt h = gives_up tt refl refl
  attempts_from-Ends (suc zero) attempt h = go (op attempt) refl
    where
      here : attempt + 0 ≡ attempt
      here = omega arith

      stop : leb max_attempts attempt ≡ true
      stop = ground arith

      go :
          (a : Attempt T)
          → op attempt ≡ a
          → Ends attempt 1
              (attempts_from op max_attempts base_delay factor 1 attempt).0
              (attempts_from op max_attempts base_delay factor 1 attempt).1
      go (done t) e =
          answers 0 t tt (rw here e) (rw (e, attempts_from)) (omega arith) (rw (e, attempts_from))
      go abort e =
          aborts 0 tt (rw here e) (rw (e, attempts_from)) (omega arith) (rw (e, attempts_from))
      go error e = gives_up (e, tt) (rw (e, stop, attempts_from)) (rw (e, stop, attempts_from))
  attempts_from-Ends (suc (suc left)) attempt h =
      go (op attempt) refl (attempts_from-Ends (suc left) (suc attempt) (omega arith))
    where
      here : attempt + 0 ≡ attempt
      here = omega arith

      on : leb max_attempts attempt ≡ false
      on = ground arith

      go :
          (a : Attempt T)
          → op attempt ≡ a
          → Ends
              (suc attempt)
              (suc left)
              (attempts_from op max_attempts base_delay factor (suc left) (suc attempt)).0
              (attempts_from op max_attempts base_delay factor (suc left) (suc attempt)).1
          → Ends attempt
              (suc (suc left))
              (attempts_from op max_attempts base_delay factor (suc (suc left)) attempt).0
              (attempts_from op max_attempts base_delay factor (suc (suc left)) attempt).1
      go (done t) e r =
          answers 0 t tt (rw here e) (rw (e, attempts_from)) (omega arith) (rw (e, attempts_from))
      go abort e r =
          aborts 0 tt (rw here e) (rw (e, attempts_from)) (omega arith) (rw (e, attempts_from))
      go error e r =
          rw (e, on, attempts_from)
            (shift attempt left
              (attempts_from op max_attempts base_delay factor (suc left) (suc attempt)).0
              (attempts_from op max_attempts base_delay factor (suc left) (suc attempt)).1 e r)

  -- The operation runs until it returns or aborts, at most `max_attempts` times: the attempts before
  -- the last one run all failed, and after the k-th of them the loop slept for
  -- base_delay * factor ^ (k - 1). If every attempt fails, the call gives up with `max_attempts`, and
  -- there is no sleep after the last one.
  pub retry_with_backoff-Ends :
      Ends 1 max_attempts
        (retry_with_backoff op max_attempts base_delay factor).0
        (retry_with_backoff op max_attempts base_delay factor).1
  unfolding retry_with_backoff
  retry_with_backoff-Ends = attempts_from-Ends max_attempts 1 (omega arith)
