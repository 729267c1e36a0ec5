-- ===== src/Config/Snapshot.antt =====
-- core/config/snapshot.py: the read-only view of the configuration, with the kinds of
-- core/config/models.py.
use chain_indexer.Base.{ℕ, String, Bool, true, false, ◌≡◌, ◌↔◌, Option, List, arith, Comparable}
use chain_indexer.Parse.Value.{Fields, Value}

pub data MatchKind : Type 0 where
  native_transfer token_transfer event call : MatchKind

abbrev pub kind_beq : MatchKind → MatchKind → Bool
kind_beq native_transfer native_transfer = true
kind_beq token_transfer token_transfer = true
kind_beq event event = true
kind_beq call call = true
kind_beq j k = false

pub kind_beq_iff : (j k : MatchKind) → (kind_beq j k ≡ true) ↔ (j ≡ k)
kind_beq_iff j k = ground arith

instance abbrev pub kind_comparable : Comparable MatchKind
kind_comparable = record { same = kind_beq; same_iff = kind_beq_iff }

pub data ChainKind : Type 0 where
  evm solana : ChainKind

pub record SnapshotSubscription : Type 0 where
  pub id : String
  pub name : String
  pub chain_id : String
  pub address : Option String
  pub abi_id : Option String
  pub match_kind : MatchKind
  pub match_name : Option String
  pub arg_filters : Fields
  pub enabled : Bool
  pub channel_ids : List String
  pub start_block : Option ℕ
  pub business_name : Option String

pub record SnapshotChannel : Type 0 where
  pub id : String
  pub name : String
  pub type : String
  pub config : Fields

pub record SnapshotChain : Type 0 where
  pub id : String
  pub kind : ChainKind
  pub rpc_http : String
  pub rpc_ws : Option String
  pub confirmations : ℕ
  pub poll_interval_ms : ℕ
  pub commitment : Option String
  pub trace_internal_calls : Bool
  pub log_query_range_blocks : ℕ
  pub slot_query_range_blocks : ℕ
  pub rpc_http_fallbacks : List String
  pub rpc_timeout_ms : ℕ

-- The body of an ABI is read by core/abi, as a list of JSON objects or one object.
pub record SnapshotAbi : Type 0 where
  pub id : String
  pub name : String
  pub kind : String
  pub body : Value

pub record ConfigSnapshot : Type 0 where
  pub version : ℕ
  pub subscriptions : List SnapshotSubscription
  pub channels : List SnapshotChannel
  pub chains : List SnapshotChain
  pub abis : List SnapshotAbi
