-- ===== src/Run/Catchup.antt =====
-- apps/worker/chain_runner.py: where the catch-up of an EVM chain starts, the windows that it asks for, and the
-- blocks that it processes. The adapter is a parameter.
pub mod Windows
pub mod Bounds
pub mod Processed
use chain_indexer.Base.{
  ℕ, zero, suc, ◌+◌, ◌-◌, min, String, Bool, true, false, not, ◌&&◌, Option, none, some, List, [],
  ◌∷◌, ◌++◌, ltb, leb, ◌==◌, string_comparable, if◌then◌else◌,
}
use chain_indexer.Config.Snapshot.{SnapshotSubscription}

abbrev max_catchup_blocks : ℕ
max_catchup_blocks = 10000

-- The start blocks of the enabled subscriptions of the chain.
unfoldable pub sub_starts : String → List SnapshotSubscription → List ℕ
sub_starts chain_id [] = []
sub_starts chain_id (s ∷ ss) = elim s.start_block [
  | none ↦ sub_starts chain_id ss
  | some start ↦
      if (s.chain_id == chain_id) && s.enabled
      then start ∷ sub_starts chain_id ss
      else sub_starts chain_id ss
]

abbrev pub with_checkpoint : Option ℕ → List ℕ → List ℕ
with_checkpoint none starts = starts
with_checkpoint (some block) starts = block ∷ starts

unfoldable pub minimum : List ℕ → Option ℕ
minimum [] = none
minimum (n ∷ ns) = elim (minimum ns) [ none ↦ some n | some m ↦ some (min n m) ]

-- The first and the last block to process, from the last block that is done and the last safe one;
-- `none` if there is nothing to do. `tip - confirmations` may be negative in the source, and then no
-- gap is left.
unfoldable pub bounds : ℕ → ℕ → Option (ℕ × ℕ)
bounds last_block safe_tip =
    if not (ltb last_block safe_tip)
    then none
    else if ltb max_catchup_blocks (safe_tip - last_block)
    then some (safe_tip - max_catchup_blocks + 1, safe_tip)
    else some (last_block + 1, safe_tip)

unfoldable pub catchup_bounds :
    String → List SnapshotSubscription → Option ℕ → Option ℕ → ℕ → Option (ℕ × ℕ)
unfolding sub_starts minimum bounds
catchup_bounds chain_id subs checkpoint tip confirmations =
    elim (minimum (with_checkpoint checkpoint (sub_starts chain_id subs))) [
      | none ↦ none
      | some last_block ↦ elim tip [ none ↦ none | some n ↦ bounds last_block (n - confirmations) ]
    ]

-- `range(start, end + 1)`, of as many blocks as are given.
unfoldable pub blocks_from : ℕ → ℕ → List ℕ
blocks_from zero start = []
blocks_from (suc count) start = start ∷ blocks_from count (suc start)

-- The windows of the loop, each with its first and last block, as far as the loop goes on.
unfoldable pub windows : ℕ → ℕ → ℕ → ℕ → List (ℕ × ℕ)
windows zero range_blocks start_n safe_tip = []
windows (suc fuel) range_blocks start_n safe_tip =
    let end_n = min (start_n + range_blocks - 1) safe_tip in
    let further = windows fuel range_blocks (end_n + 1) safe_tip in
    if leb start_n safe_tip then (start_n, end_n) ∷ further else []

-- How a loop of the catch-up ends: it goes on, the runner is stopped, or something fails.
pub data Ending : Type 0 where
  went_on stops fails : Ending

-- A part of the loop, and the rest if it goes on.
abbrev pub followed : List ℕ × Ending → List ℕ × Ending → List ℕ × Ending
followed (ns, went_on) further = (ns ++ further.0, further.1)
followed (ns, stops) further = (ns, stops)
followed (ns, fails) further = (ns, fails)

-- Whether the runner is stopped when a block is reached, whether the block is fetched and processed, and
-- whether the logs of a window are fetched, or skipped.
module _ (is_stopped is_processed : ℕ → Bool) (is_fetched : ℕ → ℕ → Bool) where
  -- The blocks of a window that are processed.
  unfoldable pub process_blocks : List ℕ → List ℕ × Ending
  process_blocks [] = ([], went_on)
  process_blocks (n ∷ ns) =
      let further = process_blocks ns in
      if is_stopped n
      then ([], stops)
      else if is_processed n
      then (n ∷ further.0, further.1)
      else ([], fails)

  -- A window that fails ends the loop.
  unfoldable pub process_windows : List (ℕ × ℕ) → List ℕ × Ending
  unfolding process_blocks blocks_from
  process_windows [] = ([], went_on)
  process_windows ((start_n, end_n) ∷ ws) =
      let further = process_windows ws in
      if is_fetched start_n end_n
      then followed (process_blocks (blocks_from (suc end_n - start_n) start_n)) further
      else ([], fails)

  -- `_catchup_evm`
  unfoldable pub catchup_evm :
      String → List SnapshotSubscription → Option ℕ → Option ℕ → ℕ → ℕ → List ℕ × Ending
  unfolding catchup_bounds windows process_windows
  catchup_evm chain_id subs checkpoint tip confirmations range_blocks =
      elim (catchup_bounds chain_id subs checkpoint tip confirmations) [
        | none ↦ ([], went_on)
        | some (start, stop) ↦ process_windows (windows (suc stop - start) range_blocks start stop)
      ]
