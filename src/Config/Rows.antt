-- ===== src/Config/Rows.antt =====
-- core/config/models.py and repositories.py: the rows of the database, a table as the list of its rows in the
-- order in which they are read, and the queries of the repositories. The answers of SQL are those of the
-- clauses of the queries: where, join, order by, offset and limit.
pub mod Chains
pub mod Subscriptions
pub mod Checkpoints
pub mod Versions
pub mod Deliveries
use chain_indexer.Base.{
  ℕ, zero, suc, ◌+◌, String, Bool, true, false, not, ◌&&◌, Option, none, some, List, [], ◌∷◌, ◌++◌,
  map, filter, any, leb, ◌==◌, string_comparable, pair_comparable, if◌then◌else◌,
}
use chain_indexer.Parse.Value.{Value, Fields}
use chain_indexer.Config.Snapshot.{MatchKind, ChainKind, SnapshotAbi}

pub record Chain : Type 0 where
  pub id : String
  pub kind : ChainKind
  pub rpc_http : String
  pub rpc_ws : Option String
  pub confirmations : ℕ
  pub poll_interval_ms : ℕ
  pub enabled : Bool
  pub commitment : Option String
  pub trace_internal_calls : Option Bool
  pub log_query_range_blocks : ℕ
  pub slot_query_range_blocks : ℕ
  pub rpc_http_fallbacks : List String
  pub rpc_timeout_ms : ℕ

pub record Channel : Type 0 where
  pub id : String
  pub name : String
  pub type : String
  pub config : Fields

pub record Subscription : Type 0 where
  pub id : String
  pub name : String
  pub chain_id : String
  pub address : Option String
  pub abi_id : Option String
  pub match_kind : MatchKind
  pub match_name : Option String
  pub arg_filters : Fields
  pub enabled : Bool
  pub start_block : Option ℕ
  pub last_processed_block : Option ℕ
  pub business_name : Option String

pub record Checkpoint : Type 0 where
  pub chain_id : String
  pub last_block : ℕ
  pub last_block_hash : String

-- The row of the version, if it is there, and the pairs of a subscription and a channel.
pub record Database : Type 0 where
  pub chains : List Chain
  pub abis : List SnapshotAbi
  pub channels : List Channel
  pub subscriptions : List Subscription
  pub subscription_channels : List (String × String)
  pub checkpoints : List Checkpoint
  pub config_version : Option ℕ

-- The row that a query by primary key gives, if any.
abbrev pub first {ℓ} : {A : Type ℓ} → List A → Option A
first [] = none
first (x ∷ xs) = some x
