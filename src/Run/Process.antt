-- ===== src/Run/Process.antt =====
-- apps/worker/chain_runner.py: one confirmed block, or one slot, from its events to the checkpoint, and a
-- new head. The adapter is a parameter, whose exceptions are `none`.
use chain_indexer.Base.{
  ℕ, zero, suc, ◌+◌, ◌-◌, String, Bool, false, not, Option, none, some, List, [], ◌∷◌, ◌++◌, map,
  ltb, max, ◌==◌, string_comparable, if◌then◌else◌, contains,
}
use chain_indexer.Base.Dict.{Dict, get, put}
use chain_indexer.Chain.Types.{BlockHeader, Block, Log}
use chain_indexer.Chain.Buffer.{ConfirmationBuffer, confirmed_of, handle_new_head}
use chain_indexer.Config.Snapshot.{SnapshotSubscription, SnapshotChannel}
use chain_indexer.Match.Matcher.{Matcher, match}
use chain_indexer.Parse.Event.{Event}

abbrev pub Hits : Type 0
Hits = List (SnapshotSubscription × List SnapshotChannel)

-- `[(sub, chans) for sub, chans in matcher.match(event) if chans]`
unfoldable pub with_channels : Hits → Hits
with_channels [] = []
with_channels ((sub, []) ∷ hits) = with_channels hits
with_channels ((sub, c ∷ cs) ∷ hits) = (sub, c ∷ cs) ∷ with_channels hits

-- The events that are dispatched, each with its hits.
unfoldable pub dispatches : Matcher → List Event → List (Event × Hits)
unfolding match with_channels
dispatches matcher [] = []
dispatches matcher (e ∷ es) = elim (with_channels (match matcher e)) [
  | [] ↦ dispatches matcher es
  | hit ∷ hits ↦ (e, hit ∷ hits) ∷ dispatches matcher es
]

-- The ids of the subscriptions that are hit, each once.
unfoldable pub matched_sub_ids : List (Event × Hits) → List String → List String
matched_sub_ids [] ids = ids
matched_sub_ids ((e, hits) ∷ rest) ids = matched_sub_ids rest (add hits ids)
  where
    add : Hits → List String → List String
    add [] known = known
    add ((sub, chans) ∷ more) known =
        add more (if contains sub.id known then known else known ++ sub.id ∷ [])

-- What processing a block does: the dispatches that it starts, the subscriptions that it reports as
-- matched, and the checkpoint that it saves, unless it raises before.
pub record Processed : Type 0 where
  pub dispatched : List (Event × Hits)
  pub matched : List String
  pub checkpoint : Option (ℕ × String)

-- `_process_block_with_prefetched_logs`: `pipeline` and `internal` give the events of the block and of
-- its traces. The traces are asked for if `traced` says so, and `none` is the exception of that; the
-- tasks of the other events are started by then.
unfoldable pub process_block :
    Matcher
    → (Block → List Event)
    → Bool
    → (ℕ → Option (List Event))
    → ℕ
    → Block
    → List Log
    → Processed
unfolding dispatches matched_sub_ids
process_block matcher pipeline traced internal number block logs =
    let found = dispatches matcher (pipeline (record block { logs = logs })) in
    elim (if traced then internal number else some []) [
      | none ↦ record { dispatched = found; matched = []; checkpoint = none }
      | some more ↦ record {
        dispatched = found ++ dispatches matcher more;
        matched = matched_sub_ids found [];
        checkpoint = some (block.header.number, block.header.hash);
      }
    ]

-- `_buffer` and `_buffer_tip_hash`
pub record Heads : Type 0 where
  pub buffer : ConfirmationBuffer
  pub buffer_tip_hash : Option String

abbrev needs_ancestors : Option String → BlockHeader → Bool
needs_ancestors none header = false
needs_ancestors (some tip) header = not (tip == header.parent_hash)

module _ (fetch_block : ℕ → Option Block) where
  -- `_prefetch_ancestors_for`: the headers below a head, until there is none or a fetch raises.
  unfoldable pub prefetch : ℕ → ℕ → ℕ → Dict String BlockHeader → Dict String BlockHeader
  unfolding put
  prefetch zero i number out = out
  prefetch (suc depth) i number out =
      elim (if ltb number i then none else fetch_block (number - i)) [
        | none ↦ out
        | some blk ↦ prefetch depth (suc i) number (put blk.header.hash blk.header out)
      ]

  unfoldable pub prefetch_ancestors_for : ℕ → BlockHeader → Dict String BlockHeader
  unfolding prefetch
  prefetch_ancestors_for confirmations header =
      prefetch (max 1 (confirmations + 1)) 1 header.number []

  -- `_handle_evm_head` up to the blocks that it then processes; `none` is an exception.
  unfoldable pub handle_evm_head : Heads → BlockHeader → Option (List ℕ × Heads)
  unfolding prefetch_ancestors_for get
  handle_evm_head s header =
      let cache =
        if needs_ancestors s.buffer_tip_hash header
        then prefetch_ancestors_for s.buffer.confirmations header
        else [] in
      elim (handle_new_head s.buffer header (λ n h. get h cache)) [
        | none ↦ none
        | some (reply, b) ↦ some (
          map (λ h. h.number) (confirmed_of reply),
          record { buffer = b; buffer_tip_hash = some header.hash },
        )
      ]
