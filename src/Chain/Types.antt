-- ===== src/Chain/Types.antt =====
-- core/chains/types.py: what the adapters hand to the parsers.
use chain_indexer.Base.{ℕ, String, Bool, Option, List}

pub record BlockHeader : Type 0 where
  pub number : ℕ
  pub hash : String
  pub parent_hash : String
  pub timestamp : ℕ

pub record Tx : Type 0 where
  pub hash : String
  pub index : ℕ
  pub from_addr : String
  pub to_addr : Option String
  pub value : ℕ
  pub input : String
  pub status : ℕ

pub record Log : Type 0 where
  pub tx_hash : String
  pub log_index : ℕ
  pub address : String
  pub topics : List String
  pub payload : String
  pub block_number : ℕ

pub record Block : Type 0 where
  pub header : BlockHeader
  pub txs : List Tx
  pub logs : List Log

pub record SolanaTokenBalance : Type 0 where
  pub account_index : ℕ
  pub mint : String
  pub owner : Option String
  pub amount : ℕ
  pub decimals : ℕ

pub record SolanaInstruction : Type 0 where
  pub program_id : String
  pub accounts : List String
  pub data_b58 : String
  pub stack_depth : ℕ

pub record SolanaTransaction : Type 0 where
  pub signature : String
  pub slot : ℕ
  pub success : Bool
  pub fee : ℕ
  pub account_keys : List String
  pub pre_balances : List ℕ
  pub post_balances : List ℕ
  pub pre_token_balances : List SolanaTokenBalance
  pub post_token_balances : List SolanaTokenBalance
  pub log_messages : List String
  pub instructions : List SolanaInstruction

pub record SolanaBlock : Type 0 where
  pub slot : ℕ
  pub block_hash : String
  pub parent_slot : ℕ
  pub block_time : Option ℕ
  pub transactions : List SolanaTransaction

-- The fields of an `InternalCall` but its `calls`.
pub record CallFrame : Type 0 where
  pub type : String
  pub from_addr : String
  pub to_addr : Option String
  pub value : ℕ
  pub gas : ℕ
  pub input : String
  pub output : String
  pub error : Option String
  pub created_address : Option String

-- A call holds a list of calls, so the list is a type of the same block.
mutual
  pub data InternalCall : Type 0 where
    internal_call : CallFrame → InternalCalls → InternalCall

  pub data InternalCalls : Type 0 where
    nil : InternalCalls
    cons : InternalCall → InternalCalls → InternalCalls
