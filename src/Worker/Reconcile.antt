-- ===== src/Worker/Reconcile.antt =====
-- The invariant of the worker, and the runners that are left when those of other chains are stopped.
mod Started
use chain_indexer.Base.{
  ℕ, ◌≡◌, ◌≢◌, refl, sym, subst, ap, ◌∙◌, String, Bool, true, false, ◌&&◌, Option, none, some, List,
  [], ◌∷◌, ◌==◌, string_comparable, ==→≡, ==_refl, ==_flip, Bool-cases, Option-cases, inl, inr, ◌⊎◌,
  Among, here, there, Among-cases, Returns, if◌then◌else◌,
}
use chain_indexer.Base.Dict.{
  Dict, get, put, remove, IsKeyed, get-put, get-remove, get-cons_eq, get-cons_ne, remove_absent,
  remove-IsKeyed, put-IsKeyed,
}
use chain_indexer.Config.Snapshot.{SnapshotChain, ConfigSnapshot}
use chain_indexer.Abi.Registry.{AbiRegistry}
use chain_indexer.Worker.{
  Worker, ChainLock, stop, acquire, release, start, apply_snapshot, ask, chain_dict, keys,
  stop_runner, release_lock, stop_missing, start_chain, keep_chain, start_missing, align, reconcile,
  stop_all, shutdown,
}

abbrev pub is_some {ℓ} : {A : Type ℓ} → Option A → Bool
is_some none = false
is_some (some a) = true

-- A lock is held for each chain with a runner and for no other.
pub record IsHeld (w : Worker) : Type 0 where
  pub runners_keyed : IsKeyed w.runners
  pub locks_keyed : IsKeyed w.locks
  pub held : (id : String) → is_some (get id w.locks) ≡ is_some (get id w.runners)

-- Removing one key from both, or putting one in both.
removed-IsHeld :
    (x : String) (w : Worker)
    → IsHeld w
    → (id : String) → is_some (get id (remove x w.locks)) ≡ is_some (get id (remove x w.runners))
removed-IsHeld x w h id =
    ap is_some (get-remove x id w.locks h.locks_keyed)
    ∙ both (x == id)
    ∙ sym (ap is_some (get-remove x id w.runners h.runners_keyed))
  where
    both :
        (b : Bool)
        → is_some (if b then none else get id w.locks)
          ≡ is_some (if b then none else get id w.runners)
    both true = refl
    both false = h.held id

pub put-IsHeld :
    (x : String) (c : SnapshotChain) (l : ChainLock) (w : Worker)
    → IsHeld w
    → (id : String) → is_some (get id (put x l w.locks)) ≡ is_some (get id (put x c w.runners))
put-IsHeld x c l w h id =
    ap is_some (get-put x id l w.locks)
    ∙ both (x == id)
    ∙ sym (ap is_some (get-put x id c w.runners))
  where
    both :
        (b : Bool)
        → is_some (if b then some l else get id w.locks)
          ≡ is_some (if b then some c else get id w.runners)
    both true = refl
    both false = h.held id

stopped_locks :
    (x : String) (w : Worker) → (release_lock x (stop_runner x w)).locks ≡ remove x w.locks
unfolding release_lock stop_runner
stopped_locks x w = elim (Option-cases (get x w.locks)) [
  | inl e ↦ rw (e, release_lock) (sym (remove_absent x w.locks e))
  | inr (l, e) ↦ rw (e, release_lock) refl
]

stopped_runners :
    (x : String) (w : Worker) → (release_lock x (stop_runner x w)).runners ≡ remove x w.runners
unfolding release_lock stop_runner
stopped_runners x w = elim (Option-cases (get x w.locks)) [
  | inl e ↦ rw (e, release_lock) refl
  | inr (l, e) ↦ rw (e, release_lock) refl
]

stopped-IsHeld : (x : String) (w : Worker) → IsHeld w → IsHeld (release_lock x (stop_runner x w))
stopped-IsHeld x w h = record {
  runners_keyed =
      subst IsKeyed (sym (stopped_runners x w)) (remove-IsKeyed x w.runners h.runners_keyed);
  locks_keyed = subst IsKeyed (sym (stopped_locks x w)) (remove-IsKeyed x w.locks h.locks_keyed);
  held = λ id.
      ap (λ m. is_some (get id m)) (stopped_locks x w)
      ∙ removed-IsHeld x w h id
      ∙ sym (ap (λ m. is_some (get id m)) (stopped_runners x w));
}

pub stop_missing-IsHeld :
    (ids : List String) (enabled : Dict String SnapshotChain) (w : Worker)
    → IsHeld w
    → IsHeld (stop_missing ids enabled w)
unfolding stop_missing
stop_missing-IsHeld [] enabled w h = h
stop_missing-IsHeld (x ∷ ids) enabled w h = elim (Option-cases (get x enabled)) [
  | inl e ↦
      rw (e, stop_missing)
        (stop_missing-IsHeld ids enabled (release_lock x (stop_runner x w)) (stopped-IsHeld x w h))
  | inr (c, e) ↦ rw (e, stop_missing) (stop_missing-IsHeld ids enabled w h)
]

stopped_get :
    (x id : String) (w : Worker)
    → IsHeld w
    → get id (release_lock x (stop_runner x w)).runners
      ≡ (if x == id then none else get id w.runners)
stopped_get x id w h = ap (get id) (stopped_runners x w) ∙ get-remove x id w.runners h.runners_keyed

-- A chain that is enabled keeps its runner.
pub stop_missing_enabled :
    (id : String) (cfg : SnapshotChain) (ids : List String) (enabled : Dict String SnapshotChain)
    (w : Worker)
    → IsHeld w
    → get id enabled ≡ some cfg
    → get id (stop_missing ids enabled w).runners ≡ get id w.runners
unfolding stop_missing
stop_missing_enabled id cfg [] enabled w h g = refl
stop_missing_enabled id cfg (x ∷ ids) enabled w h g = elim (Option-cases (get x enabled)) [
  | inr (c, e) ↦ rw (e, stop_missing) (stop_missing_enabled id cfg ids enabled w h g)
  | inl e ↦
      rw (e, stop_missing)
        (stop_missing_enabled id cfg ids enabled (release_lock x (stop_runner x w))
            (stopped-IsHeld x w h) g
          ∙ stopped_get x id w h
          ∙ ap (λ b. if b then none else get id w.runners) (other e))
]
  where
    other : get x enabled ≡ none → (x == id) ≡ false
    other e = elim (Bool-cases (x == id)) [
      | inr b ↦ b
      | inl b ↦
          let same : x ≡ id = ==→≡ b in absurd (cc (g, subst (λ i. get i enabled ≡ none) same e))
    ]

-- A chain that is not has none any more, if the loop meets it or it had none.
pub stop_missing_disabled :
    (id : String) (ids : List String) (enabled : Dict String SnapshotChain) (w : Worker)
    → IsHeld w
    → get id enabled ≡ none
    → Among id ids ⊎ (get id w.runners ≡ none)
    → get id (stop_missing ids enabled w).runners ≡ none
unfolding stop_missing
stop_missing_disabled id [] enabled w h g (inl m) = elim m [ ]
stop_missing_disabled id [] enabled w h g (inr n) = n
stop_missing_disabled id (x ∷ ids) enabled w h g m = elim (Option-cases (get x enabled)) [
  | inr (c, e) ↦ rw (e, stop_missing) (stop_missing_disabled id ids enabled w h g (passed c e m))
  | inl e ↦
      rw (e, stop_missing)
        (stop_missing_disabled id ids enabled (release_lock x (stop_runner x w))
          (stopped-IsHeld x w h) g (gone m))
]
  where
    passed :
        (c : SnapshotChain)
        → get x enabled ≡ some c
        → Among id (x ∷ ids) ⊎ (get id w.runners ≡ none)
        → Among id ids ⊎ (get id w.runners ≡ none)
    passed c e (inr n) = inr n
    passed c e (inl n) = elim (Among-cases id x ids n) [
      | inr n' ↦ inl n'
      | inl same ↦ absurd (cc (g, subst (λ i. get i enabled ≡ some c) (sym same) e))
    ]

    gone :
        Among id (x ∷ ids) ⊎ (get id w.runners ≡ none)
        → Among id ids ⊎ (get id (release_lock x (stop_runner x w)).runners ≡ none)
    gone (inl n) = elim (Among-cases id x ids n) [
      | inr n' ↦ inl n'
      | inl same ↦ inr (
          stopped_get x id w h
          ∙ ap (λ b. if b then none else get id w.runners)
              (subst (λ i. (x == i) ≡ true) (sym same) (==_refl x)))
    ]
    gone (inr n) = inr (stopped_get x id w h ∙ either (x == id) n)
      where
        either :
            (b : Bool) → get id w.runners ≡ none → (if b then none else get id w.runners) ≡ none
        either true n = refl
        either false n = n

pub Among-keys :
    (id : String) (m : Dict String SnapshotChain) → Among id (keys m) ⊎ (get id m ≡ none)
Among-keys id [] = inr (unfold get in refl)
Among-keys id ((k, c) ∷ m) = elim (Bool-cases (k == id)) [
  | inl b ↦ let same : k ≡ id = ==→≡ b in inl (subst (λ i. Among i (k ∷ keys m)) same here)
  | inr b ↦ elim (Among-keys id m) [
    | inl n ↦ inl (there n)
    | inr n ↦ inr (get-cons_ne id k c m b ∙ n)
  ]
]
