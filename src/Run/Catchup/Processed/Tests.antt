-- ===== src/Run/Catchup/Processed/Tests.antt =====
-- A catch-up from block 21 to block 88, in windows of ten blocks, in which block 40 fails.
use chain_indexer.Base.{ℕ, ◌-◌, refl, Bool, true, false, not, ◌==◌, nat_comparable, some, [], arith}
use chain_indexer.Run.Catchup.{
  catchup_bounds, sub_starts, minimum, bounds, blocks_from, catchup_evm,
}
use chain_indexer.Run.Catchup.Processed.{Follows, catchup_evm-Follows}

abbrev never : ℕ → Bool
never n = false

abbrev all_but_40 : ℕ → Bool
all_but_40 n = not (n == 40)

abbrev always : ℕ → ℕ → Bool
always start_n end_n = true

catchup_evm-Follows_example :
    Follows never all_but_40 always
      (blocks_from (89 - 21) 21)
      (catchup_evm never all_but_40 always "eth" [] (some 20) (some 100) 12 10)
unfolding catchup_bounds sub_starts minimum bounds
catchup_evm-Follows_example =
    catchup_evm-Follows never all_but_40 always "eth" [] (some 20) (some 100) 12 10 21 88
      (omega arith) refl
