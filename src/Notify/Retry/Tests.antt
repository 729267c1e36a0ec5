-- ===== src/Notify/Retry/Tests.antt =====
-- Runs of the retry loop with three attempts, a base delay of 1 and the factor 4.
use chain_indexer.Base.{ℕ, ◌≡◌, refl, Option, some, [], ◌∷◌, ◌==◌, nat_comparable, if◌then◌else◌}
use chain_indexer.Notify.Retry.{
  Attempt, done, error, returned, aborted, exhausted, retry_with_backoff, send,
}
use chain_indexer.Notify.Retry.Schedule.{Ends, retry_with_backoff-Ends}
use chain_indexer.Notify.Retry.Statuses.{Delivers, send-Delivers}

-- The operation answers at its third attempt.
abbrev third_time : ℕ → Attempt ℕ
third_time attempt = if attempt == 3 then done 7 else error

third_time_runs : retry_with_backoff third_time 3 1 4 ≡ (returned 7, 1 ∷ 4 ∷ [])
unfolding retry_with_backoff
third_time_runs = refl

two_runs : retry_with_backoff third_time 2 1 4 ≡ (exhausted 2, 1 ∷ [])
unfolding retry_with_backoff
two_runs = refl

retry_with_backoff-Ends_example :
    Ends third_time 3 1 4 1 3
      (retry_with_backoff third_time 3 1 4).0
      (retry_with_backoff third_time 3 1 4).1
retry_with_backoff-Ends_example = retry_with_backoff-Ends third_time 3 1 4

-- Too many requests, then not found.
abbrev limited : ℕ → Option ℕ
limited attempt = some (if attempt == 1 then 429 else 404)

limited_runs : send limited 3 1 4 ≡ (aborted, 1 ∷ [])
unfolding send
limited_runs = refl

send-Delivers_example : Delivers limited 3 1 4 (send limited 3 1 4).0 (send limited 3 1 4).1
send-Delivers_example = send-Delivers limited 3 1 4
