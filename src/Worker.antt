-- ===== src/Worker.antt =====
-- apps/worker/main.py: the worker, which holds the registry, a runner and a lock for each chain, and brings
-- them in line with each snapshot. A runner is known by the chain it was made for; what the worker asks of
-- runners and locks is recorded as calls. Whether a lock is granted and whether a runner starts come from
-- outside. Calls that raise elsewhere than in `start` end the worker and are not modelled.
pub mod Reconcile
pub mod Lock
use chain_indexer.Base.{
  ℕ, String, Bool, true, false, Option, none, some, List, [], ◌∷◌, ◌++◌, map, string_comparable,
  if◌then◌else◌,
}
use chain_indexer.Base.Dict.{Dict, get, put, remove}
use chain_indexer.Config.Snapshot.{SnapshotChain, ConfigSnapshot}
use chain_indexer.Config.Rows.{Checkpoint, Database}
use chain_indexer.Config.Rows.Checkpoints
use chain_indexer.Config.Rows.Deliveries.{DeliveryRecord, success, failed}
use chain_indexer.Parse.Value.{Fields}
use chain_indexer.Abi.Registry.{AbiRegistry}

pub data Call : Type 0 where
  acquire release start apply_snapshot stop replay : String → Call

pub record ChainLock : Type 0 where
  pub chain_id : String
  pub worker_id : String

pub record Worker : Type 0 where
  pub worker_id : String
  pub registry : AbiRegistry
  pub runners : Dict String SnapshotChain
  pub locks : Dict String ChainLock
  pub stopped : Bool
  pub ready : Bool
  pub calls : List Call

abbrev pub ask : List Call → Worker → Worker
ask cs w = record w { calls = w.calls ++ cs }

-- `{c.id: c for c in snap.chains}`
unfoldable pub chain_dict :
    List SnapshotChain → Dict String SnapshotChain → Dict String SnapshotChain
unfolding put
chain_dict [] m = m
chain_dict (c ∷ cs) m = chain_dict cs (put c.id c m)

abbrev pub keys : Dict String SnapshotChain → List String
keys [] = []
keys ((k, c) ∷ m) = k ∷ keys m

-- `_stop_runner`
unfoldable pub stop_runner : String → Worker → Worker
unfolding remove
stop_runner chain_id w = ask (stop chain_id ∷ []) (record w { runners = remove chain_id w.runners })

-- `await self._locks.pop(chain_id).release()`, if the chain has a lock.
unfoldable pub release_lock : String → Worker → Worker
unfolding get remove
release_lock chain_id w = elim (get chain_id w.locks) [
  | none ↦ w
  | some lock ↦ ask (release chain_id ∷ []) (record w { locks = remove chain_id w.locks })
]

-- The loop that stops the runners of chains that are not in the snapshot.
unfoldable pub stop_missing : List String → Dict String SnapshotChain → Worker → Worker
unfolding get stop_runner release_lock
stop_missing [] enabled w = w
stop_missing (chain_id ∷ ids) enabled w = elim (get chain_id enabled) [
  | some cfg ↦ stop_missing ids enabled w
  | none ↦ stop_missing ids enabled (release_lock chain_id (stop_runner chain_id w))
]

module _ (is_granted : String → Bool) (starts : SnapshotChain → Bool) where
  -- A chain of the snapshot without a runner: take the lock and start one.
  abbrev pub start_chain : String → SnapshotChain → Worker → Worker
  start_chain chain_id cfg w =
      if is_granted chain_id
      then if starts cfg
        then ask (acquire chain_id ∷ start chain_id ∷ []) (record w {
          runners = put chain_id cfg w.runners;
          locks = put chain_id (record { chain_id = chain_id; worker_id = w.worker_id }) w.locks;
        })
        else ask (acquire chain_id ∷ start chain_id ∷ release chain_id ∷ []) (record w {
          locks =
              remove chain_id
                (put chain_id (record { chain_id = chain_id; worker_id = w.worker_id }) w.locks);
        })
      else ask (acquire chain_id ∷ []) w

  unfoldable pub keep_chain : String → SnapshotChain → Worker → Worker
  unfolding get put remove
  keep_chain chain_id cfg w = elim (get chain_id w.runners) [
    | some runner ↦ ask (apply_snapshot chain_id ∷ []) w
    | none ↦ start_chain chain_id cfg w
  ]

  unfoldable pub start_missing : Dict String SnapshotChain → Worker → Worker
  unfolding keep_chain
  start_missing [] w = w
  start_missing ((chain_id, cfg) ∷ enabled) w = start_missing enabled (keep_chain chain_id cfg w)

  -- The runners are brought in line with the chains, the registry being refreshed.
  unfoldable pub align : Dict String SnapshotChain → Worker → Worker
  unfolding stop_missing start_missing
  align enabled w = start_missing enabled (stop_missing (keys w.runners) enabled w)

  -- `none` is an exception of the registry.
  unfoldable pub reconcile :
      (AbiRegistry → ConfigSnapshot → Option AbiRegistry) → ConfigSnapshot → Worker → Option Worker
  unfolding align chain_dict
  reconcile refresh snap w = elim (refresh w.registry snap) [
    | none ↦ none
    | some r ↦ some (align (chain_dict snap.chains []) (record w { registry = r }))
  ]

  -- The loop of `run` over the snapshots that come, which ends when the worker is stopped. The worker is
  -- ready after the first of them.
  unfoldable pub run :
      (AbiRegistry → ConfigSnapshot → Option AbiRegistry)
      → List ConfigSnapshot
      → Worker
      → Option Worker
  unfolding reconcile
  run refresh [] w = some w
  run refresh (snap ∷ snaps) w = elim w.stopped [
    | true ↦ some w
    | false ↦ elim (reconcile refresh snap w) [
      | none ↦ none
      | some w' ↦ run refresh snaps (record w' { ready = true })
    ]
  ]

-- `_on_replay_request`: the runner of the chain replays, if there is one.
unfoldable pub on_replay_request : Option String → Worker → Worker
unfolding get
on_replay_request none w = w
on_replay_request (some chain_id) w = elim (get chain_id w.runners) [
  | none ↦ w
  | some runner ↦ ask (replay chain_id ∷ []) w
]

unfoldable pub stop_all : List String → Worker → Worker
unfolding stop_runner
stop_all [] w = w
stop_all (chain_id ∷ ids) w = stop_all ids (stop_runner chain_id w)

abbrev pub lock_releases : Dict String ChainLock → List Call
lock_releases [] = []
lock_releases ((chain_id, lock) ∷ locks) = release chain_id ∷ lock_releases locks

-- `shutdown`, with nothing else running.
unfoldable pub shutdown : Worker → Worker
unfolding stop_all
shutdown w = elim w.stopped [
  | true ↦ w
  | false ↦
      let s = stop_all (keys w.runners) (record w { stopped = true }) in
      ask (lock_releases s.locks) (record s { locks = [] })
]

-- `_CheckpointAdapter`
unfoldable pub get_checkpoint : String → Database → Option (ℕ × String)
unfolding Checkpoints.get
get_checkpoint chain_id db = elim (Checkpoints.get chain_id db) [
  | none ↦ none
  | some row ↦ some (row.last_block, row.last_block_hash)
]

unfoldable pub save_checkpoint : String → ℕ → String → Database → Database
unfolding Checkpoints.upsert
save_checkpoint chain_id last_block last_block_hash db =
    Checkpoints.upsert chain_id last_block last_block_hash db
