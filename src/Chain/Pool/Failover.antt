-- ===== src/Chain/Pool/Failover.antt =====
-- core/chains/rpc_pool.py: which endpoints a call tries, what it returns and what it counts.
use chain_indexer.Base.{
  ℕ, suc, ◌+◌, ◌-◌, ◌<◌, ◌≡◌, ◌≢◌, refl, ap, ◌∙◌, ◌⊎◌, inl, inr, true, false, Option, none, some,
  List, [], ◌∷◌, ◌++◌, arith, ◌==◌, nat_comparable, if◌then◌else◌, All, any, filter, length,
  length-append, min, Option-cases, Bool-cases,
}
use chain_indexer.Chain.Pool.{
  EndpointState, EndpointPool, is_healthy, or_all, candidates, update, succeed, fail, mark_success,
  mark_failure, count_failover, try_each, call,
}
use chain_indexer.Chain.Pool.Health.{Inv, IsIndexed}

module _ {ℓ} {H : Type ℓ} where
  -- The endpoint at a position of the pool.
  abbrev pub find : ℕ → List (EndpointState H) → Option (EndpointState H)
  find j [] = none
  find j (e ∷ es) = if e.index == j then some e else find j es

  abbrev pub Avoids : ℕ → List (EndpointState H) → Type 0
  Avoids j = All (λ e. e.index ≢ j)

  find-update :
      (i j : ℕ) (f : EndpointState H → EndpointState H) (es : List (EndpointState H))
      → ((e : EndpointState H) → (f e).index ≡ e.index)
      → i ≢ j
      → find j (update i f es) ≡ find j es
  unfolding update
  find-update i j f [] keeps h = refl
  find-update i j f (e ∷ es) keeps h = ground (arith, keeps e, find-update i j f es keeps h)

  succeed_index : (e : EndpointState H) → (succeed e).index ≡ e.index
  unfolding succeed
  succeed_index e = ground arith

  fail_index : (t d now : ℕ) (e : EndpointState H) → (fail t d now e).index ≡ e.index
  unfolding fail
  fail_index t d now e = ground arith

  later-Avoids :
      (k j now : ℕ) (es : List (EndpointState H))
      → IsIndexed k es
      → j < k
      → Avoids j (filter (is_healthy now) es)
  later-Avoids k j now [] h lt = tt
  later-Avoids k j now (e ∷ es) h lt = elim (Bool-cases (is_healthy now e)) [
    | inl b ↦
        rw b
          ((λ q. absurd (omega (arith, q, h.0))), later-Avoids (suc k) j now es h.1 (omega arith))
    | inr b ↦ rw b (later-Avoids (suc k) j now es h.1 (omega arith))
  ]

  cooling-Avoids :
      (k j now : ℕ) (es : List (EndpointState H)) (e : EndpointState H)
      → IsIndexed k es
      → find j es ≡ some e
      → is_healthy now e ≡ false
      → Avoids j (filter (is_healthy now) es)
  cooling-Avoids k j now [] e h f cold = tt
  cooling-Avoids k j now (x ∷ es) e h f cold = elim (Bool-cases (is_healthy now x)) [
    | inr b ↦ rw b (ground (arith, cooling-Avoids (suc k) j now es e h.1, rest))
    | inl b ↦
        let ne : x.index ≢ j = ground (arith, f, b, cold) in
        rw b (ne, cooling-Avoids (suc k) j now es e h.1 (ground (arith, ne)) cold)
  ]
    where
      rest : x.index ≡ j → Avoids j (filter (is_healthy now) es)
      rest q = later-Avoids (suc k) j now es h.1 (omega (arith, q, h.0))

  mark_success-find :
      (i j : ℕ) (p : EndpointPool H) → i ≢ j → find j (mark_success i p).eps ≡ find j p.eps
  unfolding mark_success
  mark_success-find i j p h = find-update i j succeed p.eps succeed_index h

  mark_failure-find :
      (i j now : ℕ) (p : EndpointPool H) → i ≢ j → find j (mark_failure i now p).eps ≡ find j p.eps
  unfolding mark_failure
  mark_failure-find i j now p h =
      find-update i j (fail p.failure_threshold p.cooldown now) p.eps
        (fail_index p.failure_threshold p.cooldown now) h

  count_failover-eps :
      (es : List (EndpointState H)) (p : EndpointPool H) → (count_failover es p).eps ≡ p.eps
  count_failover-eps [] p = refl
  count_failover-eps (e ∷ es) p = refl

  or_all-healthy :
      (now : ℕ) (es : List (EndpointState H)) (all : List (EndpointState H))
      → any (is_healthy now) es ≡ true
      → or_all (filter (is_healthy now) es) all ≡ filter (is_healthy now) es
  or_all-healthy now [] all h = absurd (cc)
  or_all-healthy now (e ∷ es) all h = elim (Bool-cases (is_healthy now e)) [
    | inl b ↦ rw b refl
    | inr b ↦ rw b (or_all-healthy now es all (rw b at h))
  ]

module _ {ℓ κ} {H : Type ℓ} {T : Type κ} (attempt : ℕ → H → Option T × ℕ) where
  try_each-find :
      (j i : ℕ) (es : List (EndpointState H)) (p : EndpointPool H)
      → Avoids j es
      → find j (try_each attempt i es p).1.eps ≡ find j p.eps
  unfolding try_each
  try_each-find j i [] p a = refl
  try_each-find j i (e ∷ es) p a = elim (Option-cases (attempt i e.handle).0) [
    | inr (t, eq) ↦ rw (eq, try_each) (mark_success-find e.index j p a.0)
    | inl eq ↦
        let failed = mark_failure e.index (attempt i e.handle).1 p in
        rw (eq, try_each)
          (try_each-find j (suc i) es (count_failover es failed) a.1
            ∙ ap (find j) (count_failover-eps es failed)
            ∙ mark_failure-find e.index j (attempt i e.handle).1 p a.0)
  ]

  -- The circuit breaker: while some endpoint is not cooling down, a call neither tries nor changes an
  -- endpoint that is, whatever the endpoints answer.
  pub call_skips_cooling :
      (now j : ℕ) (p : EndpointPool H) (e : EndpointState H)
      → Inv p
      → find j p.eps ≡ some e
      → now < e.unhealthy_until
      → any (is_healthy now) p.eps ≡ true
      → find j (call attempt now p).1.eps ≡ some e
  unfolding call candidates
  call_skips_cooling now j p e v f cold some_healthy =
      rw (or_all-healthy now p.eps p.eps some_healthy) (
        try_each-find j 0 (filter (is_healthy now) p.eps) p
          (cooling-Avoids 0 j now p.eps e v.indexed f (ground arith))
        ∙ f)

  -- The endpoints fail one after the other, the first of them at the i-th attempt.
  abbrev pub FailsAll : ℕ → List (EndpointState H) → Type κ
  FailsAll i [] = Unit
  FailsAll i (e ∷ es) = ((attempt i e.handle).0 ≡ none) × FailsAll (suc i) es

  -- All fail and the call raises, or the first that answers gives the result. A failover is counted
  -- for each failure that leaves a candidate.
  abbrev pub Tries :
      ℕ → List (EndpointState H) → EndpointPool H → Option T × EndpointPool H → Type (ℓ ⊔ κ)
  Tries i es p r =
      (FailsAll i es × (r.0 ≡ none) × (r.1.failovers ≡ p.failovers + (length es - 1)))
      ⊎ ((before : List (EndpointState H)) × (e : EndpointState H) × (after : List
            (EndpointState H))
          × (t : T) × (es ≡ before ++ e ∷ after)
          × FailsAll i before
          × ((attempt (i + length before) e.handle).0 ≡ some t)
          × (r.0 ≡ some t)
          × (r.1.failovers ≡ p.failovers + length before))

  mark_success-failovers : (i : ℕ) (p : EndpointPool H) → (mark_success i p).failovers ≡ p.failovers
  unfolding mark_success
  mark_success-failovers i p = refl

  mark_failure-failovers :
      (i now : ℕ) (p : EndpointPool H) → (mark_failure i now p).failovers ≡ p.failovers
  unfolding mark_failure
  mark_failure-failovers i now p = refl

  count_failover-failovers :
      (es : List (EndpointState H)) (p : EndpointPool H)
      → (count_failover es p).failovers ≡ p.failovers + min 1 (length es)
  count_failover-failovers [] p = omega arith
  count_failover-failovers (e ∷ es) p = omega arith

  shift :
      (i : ℕ) (e : EndpointState H) (es : List (EndpointState H)) (p q : EndpointPool H)
      (r : Option T × EndpointPool H)
      → (attempt i e.handle).0 ≡ none
      → q.failovers ≡ p.failovers + min 1 (length es)
      → Tries (suc i) es q r
      → Tries i (e ∷ es) p r
  shift i e es p q r failed counted (inl (fails, raised, n)) =
      inl ((failed, fails), raised, omega arith)
  shift i e es p q r failed counted (inr (before, x, after, t, split, fails, found, answer, n)) =
      let long = ap length split ∙ length-append before (x ∷ after) in
      let at : suc i + length before ≡ i + suc (length before) = omega arith in
      inr (
        e ∷ before,
        x,
        after,
        t,
        ap (λ l. e ∷ l) split,
        (failed, fails),
        rw at at found,
        answer,
        omega (arith, long),
      )

  try_each-Tries :
      (i : ℕ) (es : List (EndpointState H)) (p : EndpointPool H)
      → Tries i es p (try_each attempt i es p)
  unfolding try_each
  try_each-Tries i [] p = inl (tt, refl, omega arith)
  try_each-Tries i (e ∷ es) p = elim (Option-cases (attempt i e.handle).0) [
    | inr (t, eq) ↦
        let first : i + 0 ≡ i = omega arith in
        inr (
          [],
          e,
          es,
          t,
          refl,
          tt,
          rw first eq,
          rw (eq, try_each),
          rw (eq, try_each) (omega (arith, mark_success-failovers e.index p)),
        )
    | inl eq ↦
        let failed = mark_failure e.index (attempt i e.handle).1 p in
        let counted =
          count_failover-failovers es failed
          ∙ ap (λ n. n + min 1 (length es))
              (mark_failure-failovers e.index (attempt i e.handle).1 p) in
        shift i e es p (count_failover es failed) (try_each attempt i (e ∷ es) p) eq counted
          (rw (eq, try_each) (try_each-Tries (suc i) es (count_failover es failed)))
  ]

  ne-nil_candidates : (now : ℕ) (p : EndpointPool H) → p.eps ≢ [] → candidates now p ≢ []
  unfolding candidates
  ne-nil_candidates now p h e = ground (arith, h)

  -- A call on a pool that has endpoints has candidates, and tries them in order. Either all of them
  -- fail, and the call raises, or it returns the answer of the first that answers, all those before
  -- it having failed. It counts one failover for each failure that left a candidate to try.
  pub call-Tries :
      (now : ℕ) (p : EndpointPool H)
      → p.eps ≢ []
      → (candidates now p ≢ []) × Tries 0 (candidates now p) p (call attempt now p)
  unfolding call
  call-Tries now p h = (ne-nil_candidates now p h, try_each-Tries 0 (candidates now p) p)
