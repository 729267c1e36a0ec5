-- ===== src/Chain/Pool/Tests.antt =====
-- A pool of two endpoints, the first of which fails until its circuit breaker opens.
use Prim.Native.String.{String}
use chain_indexer.Base.{
  ℕ, ◌≡◌, ◌≢◌, refl, true, false, Option, none, some, [], ◌∷◌, arith, ◌==◌, string_comparable,
  if◌then◌else◌,
}
use chain_indexer.Chain.Pool.{
  EndpointState, EndpointPool, candidates, mark_success, mark_failure, try_each, call,
}
use chain_indexer.Chain.Pool.Health.{Inv, handles, call-Inv}
use chain_indexer.Chain.Pool.Failover.{find, Tries, call-Tries, call_skips_cooling}

abbrev endpoint : String → ℕ → ℕ → EndpointState String
endpoint url index failures = record {
  handle = url;
  index = index;
  consecutive_failures = failures;
  unhealthy_until = 0;
  up = true;
}

-- The primary failed once; at the next failure it is skipped.
abbrev shaky : EndpointPool String
shaky = record {
  failure_threshold = 2;
  cooldown = 30;
  eps = endpoint "primary" 0 1 ∷ endpoint "backup" 1 0 ∷ [];
  failovers = 1;
}

-- Only the backup answers, always at time 7.
abbrev backup_only : ℕ → String → Option ℕ × ℕ
backup_only i url = (if url == "backup" then some 42 else none, 7)

abbrev tripped : EndpointState String
tripped = record {
  handle = "primary";
  index = 0;
  consecutive_failures = 2;
  unhealthy_until = 37;
  up = false;
}

abbrev open_breaker : EndpointPool String
open_breaker = record {
  failure_threshold = 2;
  cooldown = 30;
  eps = tripped ∷ endpoint "backup" 1 0 ∷ [];
  failovers = 2;
}

call_trips : call backup_only 5 shaky ≡ (some 42, open_breaker)
unfolding call candidates try_each mark_success mark_failure
call_trips = refl

shaky-Inv : Inv shaky
shaky-Inv = record {
  positive = omega arith;
  indexed = (refl, (refl, tt));
  consistent = (ground arith, (ground arith, tt));
}

open_breaker-Inv : Inv open_breaker
open_breaker-Inv = record {
  positive = omega arith;
  indexed = (refl, (refl, tt));
  consistent = (ground arith, (ground arith, tt));
}

call-Inv_example :
    Inv (call backup_only 5 shaky).1 × (handles (call backup_only 5 shaky).1 ≡ handles shaky)
call-Inv_example = call-Inv backup_only 5 shaky shaky-Inv

call-Tries_example :
    (candidates 5 shaky ≢ [])
    × Tries backup_only 0 (candidates 5 shaky) shaky (call backup_only 5 shaky)
call-Tries_example = call-Tries backup_only 5 shaky (λ e. cc)

call_skips_cooling_example : find 0 (call backup_only 9 open_breaker).1.eps ≡ some tripped
call_skips_cooling_example =
    call_skips_cooling backup_only 9 0 open_breaker tripped open_breaker-Inv refl (omega arith) refl
