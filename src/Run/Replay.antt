-- ===== src/Run/Replay.antt =====
-- apps/worker/chain_runner.py: a replay, which runs one subscription over a range of blocks that are past. The
-- adapter and the pipeline are parameters. An exception ends the replay, and what was dispatched stays.
pub mod Wanted
use chain_indexer.Base.{
  ℕ, zero, suc, ◌+◌, ◌-◌, min, String, Bool, true, false, Option, none, some, List, [], ◌∷◌, ◌++◌,
  ltb, if◌then◌else◌,
}
use chain_indexer.Chain.Types.{Block, Log, SolanaBlock}
use chain_indexer.Config.Snapshot.{SnapshotSubscription, SnapshotChannel, ConfigSnapshot}
use chain_indexer.Abi.Registry.{AbiRegistry}
use chain_indexer.Match.Matcher.{Matcher, create}
use chain_indexer.Match.FilterSet.{EvmLogFilterSet, build_evm_log_filter, topics_param}
use chain_indexer.Parse.Event.{Event}
use chain_indexer.Run.Catchup.{blocks_from}
use chain_indexer.Run.Process.{Hits, dispatches}

pub record Request : Type 0 where
  pub subscription : SnapshotSubscription
  pub channels : List SnapshotChannel
  pub from_block : ℕ
  pub to_block : ℕ

-- The snapshot of the subscription alone. Its version, -1 in the source, is not read.
abbrev pub alone : SnapshotSubscription → List SnapshotChannel → ConfigSnapshot
alone sub channels = record {
  version = 0;
  subscriptions = sub ∷ [];
  channels = channels;
  chains = [];
  abis = [];
}

module _ (is_stopped : ℕ → Bool) (events_at : ℕ → Option (List Event)) where
  -- The loop over the blocks, each with its events or an exception.
  unfoldable pub replay_blocks : Matcher → List ℕ → List (Event × Hits)
  unfolding dispatches
  replay_blocks matcher [] = []
  replay_blocks matcher (n ∷ ns) = elim (is_stopped n) [
    | true ↦ []
    | false ↦ elim (events_at n) [
      | none ↦ []
      | some events ↦ dispatches matcher events ++ replay_blocks matcher ns
    ]
  ]

  -- The blocks of a request up to the last that is safe, if there is one.
  unfoldable pub replay_range : Request → Option ℕ → List (Event × Hits)
  unfolding replay_blocks blocks_from create
  replay_range msg none = []
  replay_range msg (some safe) =
      replay_blocks (create (alone msg.subscription msg.channels))
        (blocks_from (suc (min msg.to_block safe) - msg.from_block) msg.from_block)

-- The events of a block with the logs that the filter lets through.
abbrev pub evm_events :
    (Block → List Event)
    → EvmLogFilterSet
    → (ℕ → Option Block)
    → (ℕ → EvmLogFilterSet → Option (List Log))
    → ℕ
    → Option (List Event)
evm_events pipeline log_filter fetch_block fetch_logs n = elim (fetch_block n) [
  | none ↦ none
  | some block ↦ elim (if log_filter.skip_logs then some [] else fetch_logs n log_filter) [
    | none ↦ none
    | some logs ↦ some (pipeline (record block { logs = logs }))
  ]
]

-- `tip - confirmations`, which is below every block if it is negative.
abbrev pub safe_tip : ℕ → ℕ → Option ℕ
safe_tip confirmations tip = if ltb tip confirmations then none else some (tip - confirmations)

unfoldable pub replay_evm :
    (ℕ → Bool)
    → (Block → List Event)
    → String
    → Option AbiRegistry
    → (ℕ → Option Block)
    → (ℕ → EvmLogFilterSet → Option (List Log))
    → ℕ
    → Option ℕ
    → Request
    → List (Event × Hits)
unfolding replay_range build_evm_log_filter
replay_evm is_stopped pipeline chain_id registry fetch_block fetch_logs confirmations tip msg =
    elim tip [
      | none ↦ []
      | some tip ↦
          replay_range is_stopped
            (evm_events pipeline
              (build_evm_log_filter (alone msg.subscription []) chain_id registry) fetch_block
              fetch_logs)
            msg (safe_tip confirmations tip)
    ]

-- A slot without a block has no events.
abbrev pub solana_events :
    (SolanaBlock → List Event) → (ℕ → Option (Option SolanaBlock)) → ℕ → Option (List Event)
solana_events pipeline fetch_block s = elim (fetch_block s) [
  | none ↦ none
  | some none ↦ some []
  | some (some block) ↦ some (pipeline block)
]

unfoldable pub replay_solana :
    (ℕ → Bool)
    → (SolanaBlock → List Event)
    → (ℕ → Option (Option SolanaBlock))
    → Option ℕ
    → Request
    → List (Event × Hits)
unfolding replay_range
replay_solana is_stopped pipeline fetch_block tip msg =
    replay_range is_stopped (solana_events pipeline fetch_block) msg tip
