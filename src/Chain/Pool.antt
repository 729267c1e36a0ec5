-- ===== src/Chain/Pool.antt =====
-- core/chains/rpc_pool.py: the pool of RPC endpoints with failover and a circuit breaker. Times of the
-- monotonic clock and durations are natural numbers of one unit. What an attempt does is given by the
-- environment: the answer, or none for an exception or a timeout, and the time at which it ends.
pub mod Health
pub mod Failover
mod Tests
use chain_indexer.Base.{
  ℕ, zero, suc, ◌+◌, Bool, true, false, not, ◌&&◌, ◌||◌, Option, none, some, List, [], ◌∷◌, map,
  leb, ◌==◌, nat_comparable, if◌then◌else◌, filter,
}

-- `up` is the gauge RPC_ENDPOINT_UP of the endpoint.
pub record EndpointState {ℓ} (H : Type ℓ) : Type ℓ where
  pub handle : H
  pub index : ℕ
  pub consecutive_failures : ℕ
  pub unhealthy_until : ℕ
  pub up : Bool

-- `failovers` is the counter RPC_FAILOVER_TOTAL of the chain.
pub record EndpointPool {ℓ} (H : Type ℓ) : Type ℓ where
  pub failure_threshold : ℕ
  pub cooldown : ℕ
  pub eps : List (EndpointState H)
  pub failovers : ℕ

module _ {ℓ} {H : Type ℓ} where
  pub enumerate : ℕ → List H → List (EndpointState H)
  enumerate i [] = []
  enumerate i (h ∷ hs) =
      record { handle = h; index = i; consecutive_failures = 0; unhealthy_until = 0; up = true }
      ∷ enumerate (suc i) hs

  -- `none` is the ValueError on an empty list of handles.
  pub create : List H → ℕ → ℕ → Option (EndpointPool H)
  unfolding enumerate
  create [] failure_threshold cooldown = none
  create (h ∷ hs) failure_threshold cooldown = some (record {
    failure_threshold = failure_threshold;
    cooldown = cooldown;
    eps = enumerate 0 (h ∷ hs);
    failovers = 0;
  })

  abbrev pub is_healthy : ℕ → EndpointState H → Bool
  is_healthy now e = leb e.unhealthy_until now

  abbrev pub or_all : List (EndpointState H) → List (EndpointState H) → List (EndpointState H)
  or_all [] eps = eps
  or_all (e ∷ es) eps = e ∷ es

  pub candidates : ℕ → EndpointPool H → List (EndpointState H)
  candidates now p = or_all (filter (is_healthy now) p.eps) p.eps

  -- The candidates are the pool's own objects, so a change of one is a change at its index.
  pub update :
      ℕ → (EndpointState H → EndpointState H) → List (EndpointState H) → List (EndpointState H)
  update i f [] = []
  update i f (e ∷ es) = (if e.index == i then f e else e) ∷ update i f es

  pub succeed : EndpointState H → EndpointState H
  succeed e =
      if not (e.consecutive_failures == 0) || not (e.unhealthy_until == 0)
      then record e { consecutive_failures = 0; unhealthy_until = 0; up = true }
      else e

  pub fail : ℕ → ℕ → ℕ → EndpointState H → EndpointState H
  fail failure_threshold cooldown now e =
      if leb failure_threshold (e.consecutive_failures + 1)
      then record e {
        consecutive_failures = e.consecutive_failures + 1;
        unhealthy_until = now + cooldown;
        up = false;
      }
      else record e { consecutive_failures = e.consecutive_failures + 1 }

  pub mark_success : ℕ → EndpointPool H → EndpointPool H
  unfolding update succeed
  mark_success i p = record p { eps = update i succeed p.eps }

  pub mark_failure : ℕ → ℕ → EndpointPool H → EndpointPool H
  unfolding update fail
  mark_failure i now p = record p { eps = update i (fail p.failure_threshold p.cooldown now) p.eps }

  -- The failover is counted if a candidate is left.
  abbrev pub count_failover : List (EndpointState H) → EndpointPool H → EndpointPool H
  count_failover [] p = p
  count_failover (e ∷ es) p = record p { failovers = p.failovers + 1 }

module _ {ℓ κ} {H : Type ℓ} {T : Type κ} (attempt : ℕ → H → Option T × ℕ) where
  -- The loop over the candidates, at the i-th of them. `none` is AllEndpointsFailed.
  pub try_each : ℕ → List (EndpointState H) → EndpointPool H → Option T × EndpointPool H
  try_each i [] p = (none, p)
  try_each i (e ∷ es) p =
      let (answer, now) = attempt i e.handle in
      elim answer [
        | some t ↦ (some t, mark_success e.index p)
        | none ↦ try_each (suc i) es (count_failover es (mark_failure e.index now p))
      ]

  pub call : ℕ → EndpointPool H → Option T × EndpointPool H
  unfolding try_each candidates
  call now p = try_each 0 (candidates now p) p
