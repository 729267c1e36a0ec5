-- ===== src/Notify/Retry/Statuses.antt =====
-- core/notifier/http.py: how a delivery ends, by the statuses of the responses.
use chain_indexer.Base.{
  ℕ, zero, suc, ◌+◌, ◌-◌, ◌≤◌, ◌<◌, ◌≡◌, ◌≢◌, ◌⊎◌, Option, none, some, List, arith, nat_comparable,
}
use chain_indexer.Notify.Retry.{
  done, abort, error, Outcome, returned, aborted, exhausted, post_once, send,
}
use chain_indexer.Notify.Retry.Schedule.{
  delays, Errors, Ends, answers, aborts, gives_up, retry_with_backoff-Ends,
}

-- A response 2xx.
abbrev pub IsSuccess : Option ℕ → Type 0
IsSuccess none = ⊥
IsSuccess (some status) = (200 ≤ status) × (status < 300)

-- A response 4xx, but not a timeout of the request (408) nor too many of them (429).
abbrev pub IsFinal : Option ℕ → Type 0
IsFinal none = ⊥
IsFinal (some status) = (400 ≤ status) × (status < 500) × (status ≢ 408) × (status ≢ 429)

-- No response, or any other.
abbrev pub IsTransient : Option ℕ → Type 0
IsTransient none = Unit
IsTransient (some status) =
    (status < 200)
    ⊎ ((300 ≤ status) × (status < 400))
    ⊎ (500 ≤ status)
    ⊎ (status ≡ 408)
    ⊎ (status ≡ 429)

post_once-IsSuccess : (r : Option ℕ) → post_once r ≡ done tt → IsSuccess r
unfolding post_once
post_once-IsSuccess none e = cc e
post_once-IsSuccess (some status) e = ground (arith, e)

post_once-IsFinal : (r : Option ℕ) → post_once r ≡ abort → IsFinal r
unfolding post_once
post_once-IsFinal none e = cc e
post_once-IsFinal (some status) e = ground (arith, e)

post_once-IsTransient : (r : Option ℕ) → post_once r ≡ error → IsTransient r
unfolding post_once
post_once-IsTransient none e = tt
post_once-IsTransient (some status) e = ground (arith, e)

module _ (respond : ℕ → Option ℕ) (max_attempts base_delay factor : ℕ) where
  -- The responses from the given one on, `n` of them, are transient.
  abbrev pub AreTransient : ℕ → ℕ → Type 0
  AreTransient attempt zero = Unit
  AreTransient attempt (suc n) = IsTransient (respond attempt) × AreTransient (suc attempt) n

  Errors-AreTransient :
      (attempt n : ℕ)
      → Errors (λ a. post_once (respond a)) max_attempts base_delay factor attempt n
      → AreTransient attempt n
  Errors-AreTransient attempt zero e = tt
  Errors-AreTransient attempt (suc n) e =
      (post_once-IsTransient (respond attempt) e.0, Errors-AreTransient (suc attempt) n e.1)

  -- How a delivery ends, with the sleeps between its requests.
  pub data Delivers (outcome : Outcome (Unit {0})) (sleeps : List ℕ) : Type 0 where
    delivered :
        (failed : ℕ)
        → AreTransient 1 failed
        → IsSuccess (respond (1 + failed))
        → outcome ≡ returned tt
        → failed < max_attempts
        → sleeps ≡ delays base_delay factor 1 failed
        → Delivers outcome sleeps
    rejected :
        (failed : ℕ)
        → AreTransient 1 failed
        → IsFinal (respond (1 + failed))
        → outcome ≡ aborted
        → failed < max_attempts
        → sleeps ≡ delays base_delay factor 1 failed
        → Delivers outcome sleeps
    spent :
        AreTransient 1 max_attempts
        → outcome ≡ exhausted max_attempts
        → sleeps ≡ delays base_delay factor 1 (max_attempts - 1)
        → Delivers outcome sleeps

  from_ends :
      (outcome : Outcome (Unit {0})) (sleeps : List ℕ)
      → Ends
          (λ a. post_once (respond a))
          max_attempts
          base_delay
          factor
          1
          max_attempts
          outcome
          sleeps
      → Delivers outcome sleeps
  from_ends outcome sleeps (answers failed t errs d o lt s) =
      delivered failed (Errors-AreTransient 1 failed errs)
        (post_once-IsSuccess (respond (1 + failed)) d) o lt s
  from_ends outcome sleeps (aborts failed errs d o lt s) =
      rejected failed (Errors-AreTransient 1 failed errs)
        (post_once-IsFinal (respond (1 + failed)) d) o lt s
  from_ends outcome sleeps (gives_up errs o s) = spent (Errors-AreTransient 1 max_attempts errs) o s

  -- A delivery ends at the first response that is 2xx, successfully, or 4xx other than 408 and 429, aborted.
  -- Until then it is retried: after a network error, 408, 429 and any other status, with the delays of the
  -- schedule in between. If the attempts are spent, it ends as exhausted.
  pub send-Delivers :
      Delivers
        (send respond max_attempts base_delay factor).0
        (send respond max_attempts base_delay factor).1
  unfolding send
  send-Delivers =
      from_ends (send respond max_attempts base_delay factor).0
        (send respond max_attempts base_delay factor).1
        (retry_with_backoff-Ends (λ a. post_once (respond a)) max_attempts base_delay factor)
