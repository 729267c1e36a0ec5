-- ===== src/Run/Solana.antt =====
-- apps/worker/chain_runner.py: the catch-up and the slots of a Solana chain. The adapter is a parameter.
pub mod Complete
use chain_indexer.Base.{
  ℕ, zero, suc, ◌+◌, ◌-◌, String, Bool, true, false, Option, none, some, List, [], ◌∷◌,
  if◌then◌else◌,
}
use chain_indexer.Chain.Types.{SolanaBlock}
use chain_indexer.Config.Snapshot.{SnapshotSubscription}
use chain_indexer.Match.Matcher.{Matcher}
use chain_indexer.Parse.Event.{Event}
use chain_indexer.Run.Catchup.{
  catchup_bounds, blocks_from, windows, Ending, went_on, stops, fails, followed,
}
use chain_indexer.Run.Process.{Processed, dispatches, matched_sub_ids}

-- The answer to a request for the slots of a range that have a block: the slots, an exception that names the
-- size of the range, or another exception.
pub data Listed : Type 0 where
  listed : List ℕ → Listed
  too_large failed : Listed

-- `_get_blocks_classified`; `none` is the exception that is raised again.
unfoldable pub get_blocks_classified : Listed → ℕ → ℕ → Option (List ℕ)
unfolding blocks_from
get_blocks_classified (listed slots) start stop = some slots
get_blocks_classified too_large start stop = none
get_blocks_classified failed start stop = some (blocks_from (suc stop - start) start)

-- Whether the runner is stopped when a slot is reached, and whether the processing of the slot succeeds.
module _ (is_stopped is_processed : ℕ → Bool) where
  -- The slots of a window that are processed. One that fails is passed over.
  unfoldable pub process_slots : List ℕ → List ℕ × Ending
  process_slots [] = ([], went_on)
  process_slots (s ∷ ss) =
      let further = process_slots ss in
      if is_stopped s
      then ([], stops)
      else if is_processed s
      then (s ∷ further.0, further.1)
      else further

  -- An exception of the request for the slots ends the catch-up and the runner.
  unfoldable pub catchup_slots : (ℕ → ℕ → Listed) → List (ℕ × ℕ) → List ℕ × Ending
  unfolding get_blocks_classified process_slots
  catchup_slots get_blocks [] = ([], went_on)
  catchup_slots get_blocks ((start, stop) ∷ ws) =
      let further = catchup_slots get_blocks ws in
      elim (get_blocks_classified (get_blocks start stop) start stop) [
        | none ↦ ([], fails)
        | some slots ↦ followed (process_slots slots) further
      ]

  -- `_catchup_solana`: the bounds are those of the other chains with no confirmations.
  unfoldable pub catchup_solana :
      String
      → List SnapshotSubscription
      → Option ℕ
      → Option ℕ
      → ℕ
      → (ℕ → ℕ → Listed)
      → List ℕ × Ending
  unfolding catchup_bounds windows catchup_slots
  catchup_solana chain_id subs checkpoint tip range_slots get_blocks =
      elim (catchup_bounds chain_id subs checkpoint tip 0) [
        | none ↦ ([], went_on)
        | some (start, stop) ↦
            catchup_slots get_blocks (windows (suc stop - start) range_slots start stop)
      ]

-- `_process_solana_slot` of a block, where `none` is a slot without one.
unfoldable pub process_solana_slot :
    Matcher → (SolanaBlock → List Event) → Option SolanaBlock → Processed
unfolding dispatches matched_sub_ids
process_solana_slot matcher pipeline none = record {
  dispatched = [];
  matched = [];
  checkpoint = none;
}
process_solana_slot matcher pipeline (some block) =
    let sent = dispatches matcher (pipeline block) in
    record {
      dispatched = sent;
      matched = matched_sub_ids sent [];
      checkpoint = some (block.slot, block.block_hash);
    }
