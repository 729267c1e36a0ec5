-- ===== src/Match/FilterSet/Passing/Tests.antt =====
-- A transfer log of a token, and two subscriptions of its chain.
use chain_indexer.Base.{String, ◌≡◌, refl, true, Option, none, some, [], ◌∷◌, here, there}
use chain_indexer.Base.Int.{pos}
use chain_indexer.Base.Text
use chain_indexer.Base.Text.{
  lower, lower_char, ascii, remove_prefix, starts_with, drop, chars, hex_digit, decimal,
  digits_fuel,
}
use chain_indexer.Base.Dict.{get}
use chain_indexer.Chain.Types.{BlockHeader, Log}
use chain_indexer.Config.Snapshot.{token_transfer, SnapshotSubscription, ConfigSnapshot}
use chain_indexer.Parse.Value.{str, int, end, field, skip_spaces, is_space}
use chain_indexer.Parse.Event.{Event}
use chain_indexer.Parse.Hex.{parse_hex, signed_hex, parse_hex_body, parse_hex_digits, skip_prefix}
use chain_indexer.Parse.Erc20.{
  transfer_topic0, try_decode, decode_topics, event_of, addr_from_topic,
}
use chain_indexer.Match.Matcher.{matches}
use chain_indexer.Match.Matcher.Index.{wants}
use chain_indexer.Match.Filters.{evaluate}
use chain_indexer.Match.FilterSet.{build_evm_log_filter}
use chain_indexer.Match.FilterSet.Passing.{gives, build_evm_log_filter-gives}

abbrev watch : String → Option String → SnapshotSubscription
watch id address = record {
  id = id;
  name = id;
  chain_id = "eth";
  address = address;
  abi_id = none;
  match_kind = token_transfer;
  match_name = none;
  arg_filters = end;
  enabled = true;
  channel_ids = [];
  start_block = none;
  business_name = none;
}

abbrev config : ConfigSnapshot
config = record {
  version = 1;
  subscriptions = watch "other" (some "0xFF") ∷ watch "this" (some "0xaBc") ∷ [];
  channels = [];
  chains = [];
  abis = [];
}

abbrev header : BlockHeader
header = record { number = 9; hash = "0x9"; parent_hash = "0x8"; timestamp = 4 }

abbrev transfer_log : Log
transfer_log = record {
  tx_hash = "0xt";
  log_index = 1;
  address = "0xABC";
  topics = transfer_topic0 ∷ "0x01" ∷ "0x02" ∷ [];
  payload = "0x0000000000000000000000000000000000000000000000000000000000000010";
  block_number = 9;
}

abbrev transfer : Event
transfer = record {
  chain_id = "eth";
  block_number = 9;
  block_hash = "0x9";
  block_timestamp = 4;
  tx_hash = "0xt";
  tx_index = none;
  log_index = some 1;
  kind = token_transfer;
  contract = some "0xabc";
  name = some "Transfer";
  args = field "from" (str "0x01") (field "to" (str "0x02") (field "value" (str "16") end));
  raw = field "tx_hash" (str "0xt") (field "log_index" (int (pos 1)) end);
}

decoded : try_decode "eth" header [] transfer_log ≡ some transfer
unfolding try_decode decode_topics event_of addr_from_topic lower lower_char ascii remove_prefix
    starts_with drop chars Text.take Text.length parse_hex signed_hex parse_hex_body
    parse_hex_digits skip_prefix skip_spaces is_space hex_digit decimal digits_fuel get
decoded = refl

wanted : wants transfer (watch "this" (some "0xaBc")) ≡ true
unfolding matches evaluate lower lower_char ascii starts_with
wanted = refl

build_evm_log_filter-gives_example :
    gives (build_evm_log_filter config "eth" none) transfer_log ≡ true
build_evm_log_filter-gives_example =
    build_evm_log_filter-gives config none "eth" header [] transfer_log transfer
      (watch "this" (some "0xaBc")) decoded (there here) wanted
