-- ===== src/Run/Logs.antt =====
-- apps/worker/chain_runner.py: the logs of a range of blocks, whose query is split while the node finds
-- its answer too large. The query itself is a parameter.
pub mod Buckets
pub mod Complete
use chain_indexer.Base.{
  ℕ, zero, suc, ◌+◌, ◌-◌, ◌/◌, String, Bool, true, false, Option, none, some, List, [], ◌∷◌, ◌++◌,
  ltb, ◌==◌, nat_comparable, if◌then◌else◌,
}
use mathlib.Core.Option
use chain_indexer.Base.Dict.{Dict, get, put, update_all}
use chain_indexer.Chain.Types.{Log}

-- `out.setdefault(lg.block_number, []).append(lg)` in the loop over the logs
unfoldable pub bucket_onto : Dict ℕ (List Log) → List Log → Dict ℕ (List Log)
unfolding get put
bucket_onto out [] = out
bucket_onto out (lg ∷ logs) =
    bucket_onto (put lg.block_number (Option.get_or (get lg.block_number out) [] ++ lg ∷ []) out)
      logs

unfoldable pub bucket_by_block : List Log → Dict ℕ (List Log)
unfolding bucket_onto
bucket_by_block logs = bucket_onto [] logs

-- The answer of a query: logs, an error that names a limit (`_DEGRADE_ERR_HINTS`), or another one.
pub data Answer : Type 0 where
  logs_of : List Log → Answer
  too_large other_error : Answer

abbrev pub merged :
    Option (Dict ℕ (List Log)) → Option (Dict ℕ (List Log)) → Option (Dict ℕ (List Log))
merged none right = none
merged (some left) none = none
merged (some left) (some right) = some (update_all left right)

module _ (fetch_logs : ℕ → ℕ → Answer) where
  -- `none` is the exception. The fuel bounds the number of halvings.
  unfoldable pub fetch_with_fuel : ℕ → ℕ → ℕ → Option (Dict ℕ (List Log))
  unfolding bucket_by_block update_all
  fetch_with_fuel zero start stop = none
  fetch_with_fuel (suc fuel) start stop =
      let mid = (start + stop) / 2 in
      let left = fetch_with_fuel fuel start mid in
      let right = fetch_with_fuel fuel (mid + 1) stop in
      elim (fetch_logs start stop) [
        | logs_of logs ↦ some (bucket_by_block logs)
        | too_large ↦ if ltb start stop then merged left right else none
        | other_error ↦ none
      ]

  unfoldable pub fetch_logs_with_degrade : ℕ → ℕ → Option (Dict ℕ (List Log))
  unfolding fetch_with_fuel
  fetch_logs_with_degrade start stop = fetch_with_fuel (suc (stop - start)) start stop
