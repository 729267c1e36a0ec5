-- ===== src/Run/Logs/Complete/Tests.antt =====
-- The splitting of queries at a node that answers at most two blocks at once.
use chain_indexer.Base.{
  ℕ, suc, ◌-◌, ◌≤◌, ◌≡◌, ◌≢◌, refl, some, List, [], ◌∷◌, arith, All, ltb, Bool-cases, inl, inr,
  if◌then◌else◌,
}
use chain_indexer.Base.Dict.{Dict}
use chain_indexer.Chain.Types.{Log}
use chain_indexer.Run.Logs.{Answer, logs_of, too_large, other_error, fetch_logs_with_degrade}
use chain_indexer.Run.Logs.Buckets.{at}
use chain_indexer.Run.Logs.Complete.{within, logs_between, fetch_logs_with_degrade-Complete}

abbrev log_in : ℕ → Log
log_in n = record {
  tx_hash = "0xt";
  log_index = 0;
  address = "0xa";
  topics = [];
  payload = "0x";
  block_number = n;
}

abbrev chain : ℕ → List Log
chain n = log_in n ∷ []

chain_numbered : (n : ℕ) → All (λ lg. lg.block_number ≡ n) (chain n)
chain_numbered n = (refl, tt)

abbrev node : ℕ → ℕ → Answer
node start stop =
    if ltb (stop - start) 2
    then logs_of (logs_between chain chain_numbered (suc stop - start) start)
    else too_large

node_honest :
    (start stop : ℕ) (logs : List Log)
    → start ≤ stop
    → node start stop ≡ logs_of logs
    → logs ≡ logs_between chain chain_numbered (suc stop - start) start
node_honest start stop logs h e = elim (Bool-cases (ltb (stop - start) 2)) [
  | inl b ↦ let f = rw b at e in cc
  | inr b ↦ let f = rw b at e in absurd (cc f)
]

node_no_error : (start stop : ℕ) → node start stop ≢ other_error
node_no_error start stop e = ground arith

node_one_block : (n : ℕ) → node n n ≢ too_large
node_one_block n e = ground arith

fetch_logs_with_degrade-Complete_example :
    (d : Dict ℕ (List Log)) × (fetch_logs_with_degrade node 3 9 ≡ some d)
    × ((n : ℕ) → at n d ≡ (if within 3 9 n then chain n else []))
fetch_logs_with_degrade-Complete_example =
    fetch_logs_with_degrade-Complete chain chain_numbered node node_honest node_no_error
      node_one_block 3 9 (omega arith)
