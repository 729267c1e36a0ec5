-- ===== src/Worker/Reconcile/Started/Tests.antt =====
-- A worker that runs one chain gets a snapshot with another.
use chain_indexer.Base.{
  ◌≡◌, refl, String, Bool, true, false, none, some, [], ◌∷◌, Returns, string_comparable, ◌==◌,
  if◌then◌else◌,
}
use chain_indexer.Base.Dict.{get}
use chain_indexer.Config.Snapshot.{SnapshotChain, ConfigSnapshot, evm}
use chain_indexer.Abi.Registry.{create}
use chain_indexer.Worker.{Worker, ChainLock, reconcile, run}
use chain_indexer.Worker.Reconcile.{IsHeld, is_some}
use chain_indexer.Worker.Reconcile.Started.{IsAligned, reconcile-IsAligned, run-IsHeld}

abbrev chain : String → SnapshotChain
chain id = record {
  id = id;
  kind = evm;
  rpc_http = "http://node";
  rpc_ws = none;
  confirmations = 12;
  poll_interval_ms = 3000;
  commitment = none;
  trace_internal_calls = false;
  log_query_range_blocks = 100;
  slot_query_range_blocks = 1000;
  rpc_http_fallbacks = [];
  rpc_timeout_ms = 10000;
}

abbrev lock : ChainLock
lock = record { chain_id = "bsc"; worker_id = "w1" }

abbrev worker : Worker
worker = record {
  worker_id = "w1";
  registry = create;
  runners = ("bsc", chain "bsc") ∷ [];
  locks = ("bsc", lock) ∷ [];
  stopped = false;
  ready = true;
  calls = [];
}

abbrev snapshot : ConfigSnapshot
snapshot = record {
  version = 2;
  subscriptions = [];
  channels = [];
  chains = chain "eth" ∷ [];
  abis = [];
}

worker-IsHeld : IsHeld worker
unfolding get
worker-IsHeld = record {
  runners_keyed = (refl, tt);
  locks_keyed = (refl, tt);
  held = λ id. both ("bsc" == id);
}
  where
    both :
        (b : Bool)
        → is_some (if b then some lock else none) ≡ is_some (if b then some (chain "bsc") else none)
    both true = refl
    both false = refl

reconcile-IsAligned_example :
    Returns
      (IsAligned (λ id. true) (λ c. true) snapshot worker)
      (reconcile (λ id. true) (λ c. true) (λ r snap. some r) snapshot worker)
reconcile-IsAligned_example =
    reconcile-IsAligned (λ id. true) (λ c. true) (λ r snap. some r) snapshot worker worker-IsHeld

run-IsHeld_example :
    Returns IsHeld (run (λ id. true) (λ c. false) (λ r snap. some r) (snapshot ∷ []) worker)
run-IsHeld_example =
    run-IsHeld (λ id. true) (λ c. false) (λ r snap. some r) (snapshot ∷ []) worker worker-IsHeld
