-- ===== src/Notify/Retry.antt =====
-- core/notifier/retry.py, and the HTTP driver's use of it (core/notifier/http.py). Delays and the
-- factor are natural numbers. What each attempt does is given by the environment.
pub mod Schedule
pub mod Statuses
mod Tests
use chain_indexer.Base.{
  ℕ, zero, suc, ◌+◌, ◌*◌, ◌-◌, ◌^◌, Bool, not, ◌&&◌, ◌||◌, Option, none, some, List, [], ◌∷◌, ltb,
  leb, ◌==◌, nat_comparable, if◌then◌else◌,
}

-- How one attempt ends: `abort` is a RetryAbort, `error` any other exception.
pub data Attempt {ℓ} (T : Type ℓ) : Type ℓ where
  done : T → Attempt T
  abort error : Attempt T

-- How the loop ends; `exhausted` is RetryExhausted with its `attempts`.
pub data Outcome {ℓ} (T : Type ℓ) : Type ℓ where
  returned : T → Outcome T
  aborted : Outcome T
  exhausted : ℕ → Outcome T

-- The sleep after a failed attempt.
abbrev pub delay : ℕ → ℕ → ℕ → ℕ
delay base_delay factor attempt = base_delay * factor ^ (attempt - 1)

module _ {ℓ} {T : Type ℓ} (op : ℕ → Attempt T) (max_attempts base_delay factor : ℕ) where
  -- The `for` loop from an attempt on, with the attempts that are left, and the sleeps that it makes.
  pub attempts_from : ℕ → ℕ → Outcome T × List ℕ
  attempts_from zero attempt = (exhausted max_attempts, [])
  attempts_from (suc left) attempt = elim (op attempt) [
    | done t ↦ (returned t, [])
    | abort ↦ (aborted, [])
    | error ↦
        let (outcome, sleeps) = attempts_from left (suc attempt) in
        if leb max_attempts attempt
        then (exhausted max_attempts, [])
        else (outcome, delay base_delay factor attempt ∷ sleeps)
  ]

  pub retry_with_backoff : Outcome T × List ℕ
  unfolding attempts_from
  retry_with_backoff = attempts_from max_attempts 1

-- `_post_once` on the status of the response; `none` is a network error of the client.
pub post_once : Option ℕ → Attempt (Unit {0})
post_once none = error
post_once (some status) =
    if leb 200 status && ltb status 300
    then done tt
    else if leb 400 status && ltb status 500 && not (status == 408 || status == 429)
    then abort
    else error

-- `HttpChannel.send` after the body is built: `respond` gives the response to the n-th request.
pub send : (ℕ → Option ℕ) → ℕ → ℕ → ℕ → Outcome (Unit {0}) × List ℕ
unfolding retry_with_backoff post_once
send respond max_attempts base_delay factor =
    retry_with_backoff (λ attempt. post_once (respond attempt)) max_attempts base_delay factor
