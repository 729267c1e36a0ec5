-- ===== src/Notify/Payload/Json/Tests.antt =====
-- The payload of an event with bytes among its arguments.
use chain_indexer.Base.{◌≡◌, true, none, some, [], ◌∷◌}
use chain_indexer.Config.Snapshot.{SnapshotSubscription, event}
use chain_indexer.Parse.Value.{str, bytes, tuple, nil, cons, end, field}
use chain_indexer.Parse.Event.{Event}
use chain_indexer.Notify.Payload.{build_payload}
use chain_indexer.Notify.Payload.Json.{are_json_fields, build_payload-is_json}

abbrev pub watch : SnapshotSubscription
watch = record {
  id = "s";
  name = "deposits";
  chain_id = "eth";
  address = none;
  abi_id = some "abi";
  match_kind = event;
  match_name = some "Deposit";
  arg_filters = end;
  enabled = true;
  channel_ids = "hook" ∷ [];
  start_block = none;
  business_name = some "shop";
}

abbrev pub deposit : Event
deposit = record {
  chain_id = "eth";
  block_number = 12;
  block_hash = "0xb";
  block_timestamp = 0;
  tx_hash = "0xt";
  tx_index = none;
  log_index = some 3;
  kind = event;
  contract = some "0xc";
  name = some "Deposit";
  args = field "key" (bytes (255 ∷ 1 ∷ [])) (field "pair" (tuple (cons (str "a") nil)) end);
  raw = end;
}

build_payload-is_json_example : are_json_fields (build_payload 5 "id" deposit watch true) ≡ true
build_payload-is_json_example = build_payload-is_json 5 "id" deposit watch true
