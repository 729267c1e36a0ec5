-- ===== src/Match/Matcher/Tests.antt =====
-- The index of the matcher at a concrete configuration.
use chain_indexer.Base.{String, ◌≡◌, Bool, true, false, none, some, [], ◌∷◌, map, filter}
use chain_indexer.Parse.Value.{str, end, field}
use chain_indexer.Parse.Event.{Event}
use chain_indexer.Config.Snapshot.{
  MatchKind, SnapshotSubscription, SnapshotChannel, ConfigSnapshot, token_transfer, native_transfer,
}
use chain_indexer.Match.Matcher.{create, match}
use chain_indexer.Match.Matcher.Index.{wants, hit, match-create}

abbrev watch : String → MatchKind → Bool → SnapshotSubscription
watch id kind enabled = record {
  id = id;
  name = id;
  chain_id = "eth";
  address = none;
  abi_id = none;
  match_kind = kind;
  match_name = none;
  arg_filters = field "from" (str "0xaa") end;
  enabled = enabled;
  channel_ids = "hook" ∷ "gone" ∷ [];
  start_block = some 10;
  business_name = none;
}

abbrev hook : SnapshotChannel
hook = record { id = "hook"; name = "hook"; type = "webhook"; config = end }

abbrev config : ConfigSnapshot
config = record {
  version = 1;
  subscriptions =
      watch "on" token_transfer true
      ∷ watch "off" token_transfer false
      ∷ watch "other" native_transfer true
      ∷ [];
  channels = hook ∷ [];
  chains = [];
  abis = [];
}

abbrev transfer : Event
transfer = record {
  chain_id = "eth";
  block_number = 12;
  block_hash = "0xb";
  block_timestamp = 0;
  tx_hash = "0xt";
  tx_index = none;
  log_index = some 3;
  kind = token_transfer;
  contract = some "0xToken";
  name = some "Transfer";
  args = field "from" (str "0xAA") end;
  raw = end;
}

match-create_example :
    match (create config) transfer
    ≡ map (hit (create config).channels) (filter (wants transfer) config.subscriptions)
match-create_example = match-create config transfer
