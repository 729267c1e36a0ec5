-- ===== src/Config/Load.antt =====
-- `load_snapshot` of core/config/snapshot.py: the snapshot that the rows of the database give.
pub mod Laws
use chain_indexer.Base.{
  ℕ, String, Bool, true, false, Option, none, some, List, [], ◌∷◌, ◌++◌, map, filter, any, contains,
  ◌==◌, string_comparable, if◌then◌else◌,
}
use chain_indexer.Config.Snapshot.{
  SnapshotSubscription, SnapshotChannel, SnapshotChain, ConfigSnapshot,
}
use chain_indexer.Config.Rows.{Chain, Channel, Subscription, Database}
use chain_indexer.Config.Rows.Chains.{list_enabled}
use chain_indexer.Config.Rows.Subscriptions.{list_enabled_with_channels}
use chain_indexer.Config.Rows.Versions.{get}

abbrev or_false : Option Bool → Bool
or_false none = false
or_false (some b) = b

abbrev pub snap_chain : Chain → SnapshotChain
snap_chain c = record {
  id = c.id;
  kind = c.kind;
  rpc_http = c.rpc_http;
  rpc_ws = c.rpc_ws;
  confirmations = c.confirmations;
  poll_interval_ms = c.poll_interval_ms;
  commitment = c.commitment;
  trace_internal_calls = or_false c.trace_internal_calls;
  log_query_range_blocks = c.log_query_range_blocks;
  slot_query_range_blocks = c.slot_query_range_blocks;
  rpc_http_fallbacks = c.rpc_http_fallbacks;
  rpc_timeout_ms = c.rpc_timeout_ms;
}

abbrev pub snap_channel : Channel → SnapshotChannel
snap_channel ch = record { id = ch.id; name = ch.name; type = ch.type; config = ch.config }

abbrev pub snap_sub : Subscription → List Channel → SnapshotSubscription
snap_sub sub channels = record {
  id = sub.id;
  name = sub.name;
  chain_id = sub.chain_id;
  address = sub.address;
  abi_id = sub.abi_id;
  match_kind = sub.match_kind;
  match_name = sub.match_name;
  arg_filters = sub.arg_filters;
  enabled = sub.enabled;
  channel_ids = map (λ ch. ch.id) channels;
  start_block = sub.start_block;
  business_name = sub.business_name;
}

-- `snap_channels_by_id.setdefault(...)`: the dict as the list of its values, which have their keys as ids.
unfoldable pub set_default : Channel → List SnapshotChannel → List SnapshotChannel
set_default ch [] = snap_channel ch ∷ []
set_default ch (c ∷ cs) = if c.id == ch.id then c ∷ cs else c ∷ set_default ch cs

unfoldable pub set_defaults : List Channel → List SnapshotChannel → List SnapshotChannel
unfolding set_default
set_defaults [] cs = cs
set_defaults (ch ∷ chs) cs = set_defaults chs (set_default ch cs)

-- The loop over the subscriptions: those without channels are skipped.
unfoldable pub snap_channels :
    List (Subscription × List Channel) → List SnapshotChannel → List SnapshotChannel
unfolding set_defaults
snap_channels [] cs = cs
snap_channels ((sub, channels) ∷ bindings) cs = snap_channels bindings (set_defaults channels cs)

unfoldable pub snap_subs : List (Subscription × List Channel) → List SnapshotSubscription
snap_subs [] = []
snap_subs ((sub, []) ∷ bindings) = snap_subs bindings
snap_subs ((sub, ch ∷ chs) ∷ bindings) = snap_sub sub (ch ∷ chs) ∷ snap_subs bindings

-- `c.id in active_chain_ids`
abbrev pub is_active : List SnapshotSubscription → SnapshotChain → Bool
is_active subs c = any (λ s. c.id == s.chain_id) subs

unfoldable pub load_snapshot : Database → ConfigSnapshot
unfolding snap_channels snap_subs
load_snapshot db = record {
  version = get db;
  subscriptions = snap_subs (list_enabled_with_channels db);
  channels = snap_channels (list_enabled_with_channels db) [];
  chains =
      filter (is_active (snap_subs (list_enabled_with_channels db)))
        (map snap_chain (list_enabled db));
  abis = db.abis;
}
