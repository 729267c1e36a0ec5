-- ===== src/Worker/Reconcile/Started.antt =====
-- apps/worker/main.py: the runners and the locks after a reconciliation.
mod Tests
use chain_indexer.Base.{
  ℕ, ◌≡◌, ◌≢◌, refl, sym, subst, ap, ◌∙◌, String, Bool, true, false, ◌&&◌, Option, none, some, List,
  [], ◌∷◌, ◌==◌, string_comparable, ==→≡, ==_refl, ==_flip, Bool-cases, Option-cases, inl, inr, ◌⊎◌,
  Among, here, there, Among-cases, Returns, if◌then◌else◌,
}
use chain_indexer.Base.Dict.{
  Dict, get, put, remove, IsKeyed, get-put, get-remove, get-cons_eq, get-cons_ne, remove_absent,
  remove-IsKeyed, put-IsKeyed,
}
use chain_indexer.Config.Snapshot.{SnapshotChain, ConfigSnapshot}
use chain_indexer.Abi.Registry.{AbiRegistry}
use chain_indexer.Worker.{
  Worker, ChainLock, stop, acquire, release, start, apply_snapshot, ask, chain_dict, keys,
  stop_runner, release_lock, stop_missing, start_chain, keep_chain, start_missing, align, reconcile,
  stop_all, shutdown, run,
}
use chain_indexer.Worker.Reconcile.{
  is_some, IsHeld, put-IsHeld, stop_missing-IsHeld, stop_missing_enabled, stop_missing_disabled,
  Among-keys,
}

chain_dict-IsKeyed :
    (cs : List SnapshotChain) (m : Dict String SnapshotChain)
    → IsKeyed m
    → IsKeyed (chain_dict cs m)
unfolding chain_dict
chain_dict-IsKeyed [] m h = h
chain_dict-IsKeyed (c ∷ cs) m h = chain_dict-IsKeyed cs (put c.id c m) (put-IsKeyed c.id c m h)

module _ (is_granted : String → Bool) (starts : SnapshotChain → Bool) where
  -- The runner of a chain after the loop: the one it had, or a new one if the lock and the start succeed.
  abbrev pub runner_after :
      String → Option SnapshotChain → Option SnapshotChain → Option SnapshotChain
  runner_after id none running = running
  runner_after id (some cfg) (some running) = some running
  runner_after id (some cfg) none = if is_granted id && starts cfg then some cfg else none

  get-keep_chain :
      (x : String) (cfg : SnapshotChain) (id : String) (w : Worker)
      → get id (keep_chain is_granted starts x cfg w).runners
        ≡ (if x == id then runner_after x (some cfg) (get x w.runners) else get id w.runners)
  unfolding keep_chain
  get-keep_chain x cfg id w = elim (Option-cases (get x w.runners)) [
    | inr (c, e) ↦ rw (e, keep_chain) (kept c e (x == id) refl)
    | inl e ↦ rw (e, keep_chain) (begun e (is_granted x) (starts cfg))
  ]
    where
      kept :
          (c : SnapshotChain)
          → get x w.runners ≡ some c
          → (b : Bool) → (x == id) ≡ b
          → get id w.runners ≡ (if b then some c else get id w.runners)
      kept c e true b = let same : x ≡ id = ==→≡ b in subst (λ i. get i w.runners ≡ some c) same e
      kept c e false b = refl

      same_as :
          get x w.runners ≡ none
          → (b : Bool) → (x == id) ≡ b
          → get id w.runners ≡ (if b then none else get id w.runners)
      same_as e true b = let same : x ≡ id = ==→≡ b in subst (λ i. get i w.runners ≡ none) same e
      same_as e false b = refl

      begun :
          get x w.runners ≡ none
          → (g s : Bool)
          → get id
              (if g
                then if s
                  then ask (acquire x ∷ start x ∷ []) (record w {
                    runners = put x cfg w.runners;
                    locks = put x (record { chain_id = x; worker_id = w.worker_id }) w.locks;
                  })
                  else ask (acquire x ∷ start x ∷ release x ∷ []) (record w {
                    locks =
                        remove x (put x (record { chain_id = x; worker_id = w.worker_id }) w.locks);
                  })
                else ask (acquire x ∷ []) w).runners
            ≡ (if x == id then if g && s then some cfg else none else get id w.runners)
      begun e true true = get-put x id cfg w.runners
      begun e true false = same_as e (x == id) refl
      begun e false s = same_as e (x == id) refl

  keep_chain-IsHeld :
      (x : String) (cfg : SnapshotChain) (w : Worker)
      → IsHeld w
      → IsHeld (keep_chain is_granted starts x cfg w)
  unfolding keep_chain
  keep_chain-IsHeld x cfg w h = elim (Option-cases (get x w.runners)) [
    | inr (c, e) ↦
        rw (e, keep_chain)
          (record { runners_keyed = h.runners_keyed; locks_keyed = h.locks_keyed; held = h.held })
    | inl e ↦ rw (e, keep_chain) (begun e (is_granted x) (starts cfg))
  ]
    where
      lock : ChainLock
      lock = record { chain_id = x; worker_id = w.worker_id }

      undone :
          get x w.runners ≡ none
          → (id : String)
          → is_some (get id (remove x (put x lock w.locks))) ≡ is_some (get id w.runners)
      undone e id =
          ap is_some
            (get-remove x id (put x lock w.locks) (put-IsKeyed x lock w.locks h.locks_keyed))
          ∙ either (x == id) refl
        where
          either :
              (b : Bool)
              → (x == id) ≡ b
              → is_some (if b then none else get id (put x lock w.locks))
                ≡ is_some (get id w.runners)
          either true b =
              let same : x ≡ id = ==→≡ b in
              subst (λ i. false ≡ is_some (get i w.runners)) same (sym (ap is_some e))
          either false b =
              ap is_some
                (get-put x id lock w.locks ∙ ap (λ t. if t then some lock else get id w.locks) b)
              ∙ h.held id

      begun :
          get x w.runners ≡ none
          → (g s : Bool)
          → IsHeld (
              if g
              then if s
                then ask (acquire x ∷ start x ∷ []) (record w {
                  runners = put x cfg w.runners;
                  locks = put x (record { chain_id = x; worker_id = w.worker_id }) w.locks;
                })
                else ask (acquire x ∷ start x ∷ release x ∷ []) (record w {
                  locks =
                      remove x (put x (record { chain_id = x; worker_id = w.worker_id }) w.locks);
                })
              else ask (acquire x ∷ []) w)
      begun e true true = record {
        runners_keyed = put-IsKeyed x cfg w.runners h.runners_keyed;
        locks_keyed = put-IsKeyed x lock w.locks h.locks_keyed;
        held = put-IsHeld x cfg lock w h;
      }
      begun e true false = record {
        runners_keyed = h.runners_keyed;
        locks_keyed =
            remove-IsKeyed x (put x lock w.locks) (put-IsKeyed x lock w.locks h.locks_keyed);
        held = undone e;
      }
      begun e false s = record {
        runners_keyed = h.runners_keyed;
        locks_keyed = h.locks_keyed;
        held = h.held;
      }

  start_missing-IsHeld :
      (enabled : Dict String SnapshotChain) (w : Worker)
      → IsHeld w
      → IsHeld (start_missing is_granted starts enabled w)
  unfolding start_missing
  start_missing-IsHeld [] w h = h
  start_missing-IsHeld ((x, cfg) ∷ enabled) w h =
      start_missing-IsHeld enabled (keep_chain is_granted starts x cfg w)
        (keep_chain-IsHeld x cfg w h)

  get-start_missing :
      (enabled : Dict String SnapshotChain) (id : String) (w : Worker)
      → IsKeyed enabled
      → get id (start_missing is_granted starts enabled w).runners
        ≡ runner_after id (get id enabled) (get id w.runners)
  unfolding start_missing get
  get-start_missing [] id w k = refl
  get-start_missing ((x, cfg) ∷ enabled) id w k =
      get-start_missing enabled id (keep_chain is_granted starts x cfg w) k.1
      ∙ ap (runner_after id (get id enabled)) (get-keep_chain x cfg id w)
      ∙ here_or_there (x == id) refl
    where
      here_or_there :
          (b : Bool)
          → (x == id) ≡ b
          → runner_after id
              (get id enabled)
              (if x == id then runner_after x (some cfg) (get x w.runners) else get id w.runners)
            ≡ runner_after id (if x == id then some cfg else get id enabled) (get id w.runners)
      here_or_there true b =
          let same : x ≡ id = ==→≡ b in
          let gone : get id enabled ≡ none = subst (λ i. get i enabled ≡ none) same k.0 in
          rw b (rw gone (ap (λ i. runner_after i (some cfg) (get i w.runners)) same))
      here_or_there false b = rw b refl

  -- What a chain runs after the reconciliation, by what the snapshot wants and what ran before.
  abbrev pub aligned : String → Option SnapshotChain → Option SnapshotChain → Option SnapshotChain
  aligned id none running = none
  aligned id (some cfg) running = runner_after id (some cfg) running

  get-align :
      (enabled : Dict String SnapshotChain) (id : String) (w : Worker)
      → IsHeld w
      → IsKeyed enabled
      → get id (align is_granted starts enabled w).runners
        ≡ aligned id (get id enabled) (get id w.runners)
  unfolding align
  get-align enabled id w h k =
      get-start_missing enabled id (stop_missing (keys w.runners) enabled w) k
      ∙ wanted (get id enabled) refl
    where
      wanted :
          (o : Option SnapshotChain)
          → get id enabled ≡ o
          → runner_after id o (get id (stop_missing (keys w.runners) enabled w).runners)
            ≡ aligned id o (get id w.runners)
      wanted none e =
          stop_missing_disabled id (keys w.runners) enabled w h e (Among-keys id w.runners)
      wanted (some cfg) e =
          ap (runner_after id (some cfg))
            (stop_missing_enabled id cfg (keys w.runners) enabled w h e)

  align-IsHeld :
      (enabled : Dict String SnapshotChain) (w : Worker)
      → IsHeld w
      → IsHeld (align is_granted starts enabled w)
  unfolding align
  align-IsHeld enabled w h =
      start_missing-IsHeld enabled (stop_missing (keys w.runners) enabled w)
        (stop_missing-IsHeld (keys w.runners) enabled w h)

  -- A runner for each chain of the snapshot that had one, or whose lock is granted and whose runner starts,
  -- and for no other; and a lock for each chain with a runner and for no other.
  abbrev pub IsAligned : ConfigSnapshot → Worker → Worker → Type 0
  IsAligned snap w out =
      IsHeld out
      × ((id : String)
          → get id out.runners ≡ aligned id (get id (chain_dict snap.chains [])) (get id w.runners))

  -- After a reconciliation that returns the worker runs a chain of the snapshot if it ran it before, or if
  -- its lock is granted and its runner starts; it runs no other chain; and it holds a lock for each chain
  -- that it runs and for no other.
  pub reconcile-IsAligned :
      (refresh : AbiRegistry → ConfigSnapshot → Option AbiRegistry) (snap : ConfigSnapshot)
      (w : Worker)
      → IsHeld w
      → Returns (IsAligned snap w) (reconcile is_granted starts refresh snap w)
  unfolding reconcile
  reconcile-IsAligned refresh snap w h = refreshed (refresh w.registry snap)
    where
      with_registry : (r : AbiRegistry) → IsHeld (record w { registry = r })
      with_registry r = record {
        runners_keyed = h.runners_keyed;
        locks_keyed = h.locks_keyed;
        held = h.held;
      }

      refreshed :
          (o : Option AbiRegistry)
          → Returns (IsAligned snap w) (elim o [
            | none ↦ none
            | some r ↦
                some
                  (align is_granted starts (chain_dict snap.chains []) (record w { registry = r }))
          ])
      refreshed none = tt
      refreshed (some r) = (
        align-IsHeld (chain_dict snap.chains []) (record w { registry = r }) (with_registry r),
        λ id.
            get-align (chain_dict snap.chains []) id (record w { registry = r }) (with_registry r)
              (chain_dict-IsKeyed snap.chains [] tt),
      )

  -- Whatever snapshots come, the worker holds a lock for each chain that it runs and for no other.
  pub run-IsHeld :
      (refresh : AbiRegistry → ConfigSnapshot → Option AbiRegistry) (snaps : List ConfigSnapshot)
      (w : Worker)
      → IsHeld w
      → Returns IsHeld (run is_granted starts refresh snaps w)
  unfolding run
  run-IsHeld refresh [] w h = h
  run-IsHeld refresh (snap ∷ snaps) w h = elim (Bool-cases w.stopped) [
    | inl b ↦ rw (b, run) h
    | inr b ↦ elim (Option-cases (reconcile is_granted starts refresh snap w)) [
      | inl n ↦ rw (b, run) (rw n tt)
      | inr (w', e) ↦
          let k = subst (Returns (IsAligned snap w)) e (reconcile-IsAligned refresh snap w h) in
          rw (b, run)
            (rw e (
              run-IsHeld refresh snaps (record w' { ready = true })
                (record {
                  runners_keyed = k.0.runners_keyed;
                  locks_keyed = k.0.locks_keyed;
                  held = k.0.held;
                })))
    ]
  ]
