-- ===== src/Run/Replay/Wanted/Tests.antt =====
-- A replay of two blocks, each with an event at its height, to one channel.
use chain_indexer.Base.{ℕ, suc, ◌-◌, min, ◌≡◌, refl, true, false, none, some, [], ◌∷◌, map, filter}
use chain_indexer.Base.Dict.{get, put}
use chain_indexer.Parse.Value.{end}
use chain_indexer.Parse.Event.{Event}
use chain_indexer.Config.Snapshot.{SnapshotSubscription, SnapshotChannel, token_transfer}
use chain_indexer.Match.Matcher.{create, channels_of, channel_dict}
use chain_indexer.Match.Matcher.Index.{wants}
use chain_indexer.Run.Catchup.{blocks_from}
use chain_indexer.Run.Replay.{alone, replay_range}
use chain_indexer.Run.Replay.Wanted.{delivered, events_of, replay_range-wanted}

abbrev watch : SnapshotSubscription
watch = record {
  id = "s1";
  name = "watch";
  chain_id = "eth";
  address = none;
  abi_id = none;
  match_kind = token_transfer;
  match_name = none;
  arg_filters = end;
  enabled = true;
  channel_ids = "hook" ∷ [];
  start_block = none;
  business_name = none;
}

abbrev hook : SnapshotChannel
hook = record { id = "hook"; name = "hook"; type = "http"; config = end }

abbrev transfer : ℕ → Event
transfer n = record {
  chain_id = "eth";
  block_number = n;
  block_hash = "0xb";
  block_timestamp = 0;
  tx_hash = "0xt";
  tx_index = none;
  log_index = some 3;
  kind = token_transfer;
  contract = some "0xToken";
  name = some "Transfer";
  args = end;
  raw = end;
}

bound : channels_of (create (alone watch (hook ∷ []))).channels ("hook" ∷ []) ≡ hook ∷ []
unfolding channels_of create channel_dict get put
bound = refl

replay_range-wanted_example :
    replay_range
      (λ n. false)
      (λ n. some (transfer n ∷ []))
      (record { subscription = watch; channels = hook ∷ []; from_block = 7; to_block = 9 })
      (some 8)
    ≡ map (delivered watch (hook ∷ []) hook [] bound) (
        filter
          (λ e. wants e watch)
          (events_of (λ n. transfer n ∷ []) (blocks_from (suc (min 9 8) - 7) 7)))
replay_range-wanted_example =
    replay_range-wanted watch (hook ∷ []) hook [] bound (λ n. false) (λ n. some (transfer n ∷ []))
      (λ n. transfer n ∷ []) (λ n. refl) (λ n. refl) 7 9 8
