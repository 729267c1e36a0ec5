-- ===== src/Chain/Pool/Health.antt =====
-- core/chains/rpc_pool.py: what the counters of an endpoint and its gauge say of each other.
use chain_indexer.Base.{
  ℕ, suc, ◌≤◌, ◌<◌, ◌≡◌, refl, ◌∙◌, false, Option, List, [], ◌∷◌, map, arith, All, Option-cases,
  inl, inr,
}
use chain_indexer.Chain.Pool.{
  EndpointState, EndpointPool, candidates, update, succeed, fail, mark_success, mark_failure,
  count_failover, try_each, call,
}

module _ {ℓ} {H : Type ℓ} where
  -- The gauge is down exactly if the threshold is reached; then, and only then, a cooldown was set.
  pub record IsConsistent (threshold cooldown : ℕ) (e : EndpointState H) : Type 0 where
    pub down : e.up ≡ false → threshold ≤ e.consecutive_failures
    pub tripped : threshold ≤ e.consecutive_failures → e.up ≡ false
    pub cooling : 0 < e.unhealthy_until → threshold ≤ e.consecutive_failures
    pub waits : threshold ≤ e.consecutive_failures → cooldown ≤ e.unhealthy_until

  -- The endpoints carry the positions that they were given.
  abbrev pub IsIndexed : ℕ → List (EndpointState H) → Type 0
  IsIndexed i [] = Unit
  IsIndexed i (e ∷ es) = (e.index ≡ i) × IsIndexed (suc i) es

  abbrev pub handles : EndpointPool H → List H
  handles p = map (λ e. e.handle) p.eps

  pub record Inv (p : EndpointPool H) : Type 0 where
    pub positive : 0 < p.failure_threshold
    pub indexed : IsIndexed 0 p.eps
    pub consistent : All (IsConsistent p.failure_threshold p.cooldown) p.eps

  succeed-IsConsistent :
      (t d : ℕ) (e : EndpointState H) → 0 < t → IsConsistent t d e → IsConsistent t d (succeed e)
  unfolding succeed
  succeed-IsConsistent t d e h c = ground arith

  fail-IsConsistent :
      (t d now : ℕ) (e : EndpointState H) → IsConsistent t d e → IsConsistent t d (fail t d now e)
  unfolding fail
  fail-IsConsistent t d now e c = ground arith

  succeed_keeps :
      (e : EndpointState H) → ((succeed e).index ≡ e.index) × ((succeed e).handle ≡ e.handle)
  unfolding succeed
  succeed_keeps e = ground arith

  fail_keeps :
      (t d now : ℕ) (e : EndpointState H)
      → ((fail t d now e).index ≡ e.index) × ((fail t d now e).handle ≡ e.handle)
  unfolding fail
  fail_keeps t d now e = ground arith

  -- A change of one endpoint's counters keeps positions, handles and consistency.
  abbrev Keeps : ℕ → ℕ → (EndpointState H → EndpointState H) → Type ℓ
  Keeps t d f =
      (e : EndpointState H)
      → ((f e).index ≡ e.index)
        × ((f e).handle ≡ e.handle)
        × (IsConsistent t d e → IsConsistent t d (f e))

  update-IsIndexed :
      (t d i k : ℕ) (f : EndpointState H → EndpointState H) (es : List (EndpointState H))
      → Keeps t d f
      → IsIndexed k es
      → IsIndexed k (update i f es)
  unfolding update
  update-IsIndexed t d i k f [] keeps h = tt
  update-IsIndexed t d i k f (e ∷ es) keeps h =
      (ground (arith, keeps e), update-IsIndexed t d i (suc k) f es keeps h.1)

  update-IsConsistent :
      (t d i : ℕ) (f : EndpointState H → EndpointState H) (es : List (EndpointState H))
      → Keeps t d f
      → All (IsConsistent t d) es
      → All (IsConsistent t d) (update i f es)
  unfolding update
  update-IsConsistent t d i f [] keeps h = tt
  update-IsConsistent t d i f (e ∷ es) keeps h =
      (ground (arith, (keeps e).2 h.0), update-IsConsistent t d i f es keeps h.1)

  update-handles :
      (t d i : ℕ) (f : EndpointState H → EndpointState H) (es : List (EndpointState H))
      → Keeps t d f
      → map (λ e. e.handle) (update i f es) ≡ map (λ e. e.handle) es
  unfolding update
  update-handles t d i f [] keeps = refl
  update-handles t d i f (e ∷ es) keeps = ground (arith, keeps e, update-handles t d i f es keeps)

  succeed-Keeps : (t d : ℕ) → 0 < t → Keeps t d succeed
  succeed-Keeps t d h e = ((succeed_keeps e).0, (succeed_keeps e).1, succeed-IsConsistent t d e h)

  fail-Keeps : (t d now : ℕ) → Keeps t d (fail t d now)
  fail-Keeps t d now e =
      ((fail_keeps t d now e).0, (fail_keeps t d now e).1, fail-IsConsistent t d now e)

  mark_success-Inv :
      (i : ℕ) (p : EndpointPool H)
      → Inv p
      → Inv (mark_success i p) × (handles (mark_success i p) ≡ handles p)
  unfolding mark_success
  mark_success-Inv i p v =
      let t = p.failure_threshold in
      let d = p.cooldown in
      let keeps = succeed-Keeps t d v.positive in
      (
        record {
          positive = v.positive;
          indexed = update-IsIndexed t d i 0 succeed p.eps keeps v.indexed;
          consistent = update-IsConsistent t d i succeed p.eps keeps v.consistent;
        },
        update-handles t d i succeed p.eps keeps,
      )

  mark_failure-Inv :
      (i now : ℕ) (p : EndpointPool H)
      → Inv p
      → Inv (mark_failure i now p) × (handles (mark_failure i now p) ≡ handles p)
  unfolding mark_failure
  mark_failure-Inv i now p v =
      let t = p.failure_threshold in
      let d = p.cooldown in
      let f = fail t p.cooldown now in
      let keeps = fail-Keeps t p.cooldown now in
      (
        record {
          positive = v.positive;
          indexed = update-IsIndexed t d i 0 f p.eps keeps v.indexed;
          consistent = update-IsConsistent t d i f p.eps keeps v.consistent;
        },
        update-handles t d i f p.eps keeps,
      )

  count_failover-Inv :
      (es : List (EndpointState H)) (p : EndpointPool H)
      → Inv p
      → Inv (count_failover es p) × (handles (count_failover es p) ≡ handles p)
  count_failover-Inv [] p v = (v, refl)
  count_failover-Inv (e ∷ es) p v =
      (record { positive = v.positive; indexed = v.indexed; consistent = v.consistent }, refl)

module _ {ℓ κ} {H : Type ℓ} {T : Type κ} (attempt : ℕ → H → Option T × ℕ) where
  try_each-Inv :
      (i : ℕ) (es : List (EndpointState H)) (p : EndpointPool H)
      → Inv p
      → Inv (try_each attempt i es p).1 × (handles (try_each attempt i es p).1 ≡ handles p)
  unfolding try_each
  try_each-Inv i [] p v = (v, refl)
  try_each-Inv i (e ∷ es) p v = elim (Option-cases (attempt i e.handle).0) [
    | inr (t, eq) ↦ rw (eq, try_each) (mark_success-Inv e.index p v)
    | inl eq ↦
        let failed = mark_failure-Inv e.index (attempt i e.handle).1 p v in
        let counted =
          count_failover-Inv es (mark_failure e.index (attempt i e.handle).1 p) failed.0 in
        let rest = try_each-Inv (suc i) es _ counted.0 in
        rw (eq, try_each) (rest.0, rest.1 ∙ counted.1 ∙ failed.1)
  ]

  -- Whatever the endpoints answer, a call leaves the pool well formed: the same handles at the same
  -- positions, each gauge down exactly while the failure counter has reached the threshold, and then a
  -- cooldown that ends no earlier than its length, and else none. The threshold is positive.
  pub call-Inv :
      (now : ℕ) (p : EndpointPool H)
      → Inv p
      → Inv (call attempt now p).1 × (handles (call attempt now p).1 ≡ handles p)
  unfolding call
  call-Inv now p v = try_each-Inv 0 (candidates now p) p v
