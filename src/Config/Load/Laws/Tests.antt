-- ===== src/Config/Load/Laws/Tests.antt =====
-- A database with two subscriptions, one of them without channels.
use chain_indexer.Base.{true, none, some, [], ◌∷◌}
use chain_indexer.Parse.Value.{end}
use chain_indexer.Config.Snapshot.{evm, native_transfer}
use chain_indexer.Config.Rows.{Chain, Subscription, Database}
use chain_indexer.Config.Load.{load_snapshot}
use chain_indexer.Config.Load.Laws.{IsWellFormed, load_snapshot-IsWellFormed}

abbrev eth : Chain
eth = record {
  id = "eth";
  kind = evm;
  rpc_http = "http://node";
  rpc_ws = none;
  confirmations = 12;
  poll_interval_ms = 3000;
  enabled = true;
  commitment = none;
  trace_internal_calls = none;
  log_query_range_blocks = 100;
  slot_query_range_blocks = 1000;
  rpc_http_fallbacks = [];
  rpc_timeout_ms = 10000;
}

abbrev watch : Subscription
watch = record {
  id = "s1";
  name = "watch";
  chain_id = "eth";
  address = none;
  abi_id = none;
  match_kind = native_transfer;
  match_name = none;
  arg_filters = end;
  enabled = true;
  start_block = none;
  last_processed_block = none;
  business_name = none;
}

abbrev database : Database
database = record {
  chains = eth ∷ [];
  abis = [];
  channels = (record { id = "c1"; name = "hook"; type = "http"; config = end }) ∷ [];
  subscriptions = watch ∷ (record watch { id = "s2" }) ∷ [];
  subscription_channels = ("s1", "c1") ∷ [];
  checkpoints = [];
  config_version = some 4;
}

load_snapshot-IsWellFormed_example : IsWellFormed (load_snapshot database)
load_snapshot-IsWellFormed_example = load_snapshot-IsWellFormed database
