-- ===== src/Parse/Event.antt =====
-- core/parser/event.py: the uniform parsed event.
use chain_indexer.Base.{ℕ, String, Option}
use chain_indexer.Config.Snapshot.{MatchKind}
use chain_indexer.Parse.Value.{Fields}

-- `kind` has the values of a subscription's `match_kind`.
pub record Event : Type 0 where
  pub chain_id : String
  pub block_number : ℕ
  pub block_hash : String
  pub block_timestamp : ℕ
  pub tx_hash : String
  pub tx_index : Option ℕ
  pub log_index : Option ℕ
  pub kind : MatchKind
  pub contract : Option String
  pub name : Option String
  pub args : Fields
  pub raw : Fields
