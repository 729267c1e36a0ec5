-- ===== src/Config/Rows/Checkpoints.antt =====
-- core/config/repositories.py: the queries of CheckpointRepo.
pub mod Latest
mod Tests
use chain_indexer.Base.{
  ℕ, zero, suc, ◌+◌, String, Bool, true, false, not, ◌&&◌, Option, none, some, List, [], ◌∷◌, ◌++◌,
  map, filter, any, leb, ◌==◌, string_comparable, pair_comparable, if◌then◌else◌,
}
use chain_indexer.Config.Rows.{Chain, Channel, Subscription, Checkpoint, Database, first}

unfoldable pub get : String → Database → Option Checkpoint
get chain_id db = first (filter (λ c. c.chain_id == chain_id) db.checkpoints)

-- The row of the chain takes the new values, if it is there.
unfoldable pub write : String → ℕ → String → List Checkpoint → List Checkpoint
write chain_id last_block last_block_hash [] = []
write chain_id last_block last_block_hash (c ∷ cs) =
    if c.chain_id == chain_id
    then (record c { last_block = last_block; last_block_hash = last_block_hash }) ∷ cs
    else c ∷ write chain_id last_block last_block_hash cs

unfoldable pub upsert : String → ℕ → String → Database → Database
unfolding get write
upsert chain_id last_block last_block_hash db = elim (get chain_id db) [
  | none ↦ record db {
    checkpoints =
        db.checkpoints
        ++ (record {
          chain_id = chain_id;
          last_block = last_block;
          last_block_hash = last_block_hash;
        })
          ∷ [];
  }
  | some c ↦ record db { checkpoints = write chain_id last_block last_block_hash db.checkpoints }
]
