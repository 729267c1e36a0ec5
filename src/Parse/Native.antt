-- ===== src/Parse/Native.antt =====
-- core/parser/native.py: transfers of the native coin of an EVM chain.
use chain_indexer.Base.{
  String, Option, none, some, List, [], ◌∷◌, ◌||◌, not, ◌==◌, nat_comparable, if◌then◌else◌, leb,
}
use chain_indexer.Base.Text.{decimal}
use chain_indexer.Chain.Types.{Block, BlockHeader, Tx}
use chain_indexer.Config.Snapshot.{native_transfer}
use chain_indexer.Parse.Value.{str, end, field}
use chain_indexer.Parse.Event.{Event}

pub event_of : String → BlockHeader → Tx → String → Event
event_of chain_id h tx to_addr = record {
  chain_id = chain_id;
  block_number = h.number;
  block_hash = h.hash;
  block_timestamp = h.timestamp;
  tx_hash = tx.hash;
  tx_index = some tx.index;
  log_index = none;
  kind = native_transfer;
  contract = none;
  name = none;
  args =
      field "from" (str tx.from_addr)
        (field "to" (str to_addr) (field "value" (str (decimal tx.value)) end));
  raw = field "tx_hash" (str tx.hash) end;
}

-- One round of the loop: `none` is the `continue`.
unfoldable pub event_for : String → BlockHeader → Tx → Option Event
event_for chain_id h tx = elim tx.to_addr [
  | none ↦ none
  | some to_addr ↦
      if leb tx.value 0 || not (tx.status == 1) then none else some (event_of chain_id h tx to_addr)
]

unfoldable pub parse_txs : String → BlockHeader → List Tx → List Event
unfolding event_for
parse_txs chain_id h [] = []
parse_txs chain_id h (tx ∷ txs) = elim (event_for chain_id h tx) [
  | none ↦ parse_txs chain_id h txs
  | some e ↦ e ∷ parse_txs chain_id h txs
]

unfoldable pub parse : String → Block → List Event
unfolding parse_txs
parse chain_id block = parse_txs chain_id block.header block.txs
