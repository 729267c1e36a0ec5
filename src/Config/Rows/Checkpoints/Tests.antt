-- ===== src/Config/Rows/Checkpoints/Tests.antt =====
-- A checkpoint that replaces one, read for that chain.
use chain_indexer.Base.{◌≡◌, none, some, [], ◌∷◌, string_comparable}
use chain_indexer.Config.Rows.{Database}
use chain_indexer.Config.Rows.Checkpoints.{get, upsert}
use chain_indexer.Config.Rows.Checkpoints.Latest.{get-upsert}

abbrev database : Database
database = record {
  chains = [];
  abis = [];
  channels = [];
  subscriptions = [];
  subscription_channels = [];
  checkpoints = (record { chain_id = "eth"; last_block = 7; last_block_hash = "0x07" }) ∷ [];
  config_version = none;
}

get-upsert_example :
    get "eth" (upsert "eth" 9 "0x09" database)
    ≡ some (record { chain_id = "eth"; last_block = 9; last_block_hash = "0x09" })
get-upsert_example = get-upsert "eth" 9 "0x09" "eth" database
