-- ===== src/Parse/Abi.antt =====
-- core/parser/abi_event.py and abi_call.py: events and calls that the registry of ABIs decodes. The lookup
-- of a call is a parameter: it gives a name and a decoder, nothing, or an exception. An exception other than
-- DecodeFailed ends the parser, and the events that it yielded stay.
pub mod Registered
use chain_indexer.Base.{
  String, true, not, Option, none, some, List, [], ◌∷◌, ltb, ◌==◌, nat_comparable, if◌then◌else◌,
}
use chain_indexer.Base.Int.{pos}
use chain_indexer.Base.Text
use chain_indexer.Base.Text.{lower, take}
use chain_indexer.Chain.Types.{Block, BlockHeader, Tx, Log}
use chain_indexer.Config.Snapshot.{event, call}
use chain_indexer.Parse.Value.{str, int, list, Values, nil, cons, Fields, end, field}
use chain_indexer.Parse.Event.{Event}
use chain_indexer.Parse.Pipeline.{Yielded, quiet}
use chain_indexer.Abi.Decoder.{Decoded, decoded, decode_failed, raised as escaped}
use chain_indexer.Abi.Registry.Lookup.{Found, found, absent, raised}

-- The events of a log, and of a call, with what the lookup and the decoder give.
abbrev pub log_event : String → BlockHeader → Log → Option String → Fields → Fields → Event
log_event chain_id h entry name args raw = record {
  chain_id = chain_id;
  block_number = h.number;
  block_hash = h.hash;
  block_timestamp = h.timestamp;
  tx_hash = entry.tx_hash;
  tx_index = none;
  log_index = some entry.log_index;
  kind = event;
  contract = some (lower entry.address);
  name = name;
  args = args;
  raw = field "tx_hash" (str entry.tx_hash) (field "log_index" (int (pos entry.log_index)) raw);
}

abbrev strings : List String → Values
strings [] = nil
strings (s ∷ ss) = cons (str s) (strings ss)

-- `_downgraded`: no name and no arguments, the topics and the data kept.
abbrev pub downgraded : String → BlockHeader → Log → Event
downgraded chain_id h entry =
    log_event chain_id h entry none end
      (field "topics" (list (strings entry.topics)) (field "data" (str entry.payload) end))

-- One more event, or the end of the parser, in front of what follows.
abbrev pub yields : Found Event → Yielded → Yielded
yields raised rest = record { events = []; raised = true }
yields absent rest = rest
yields (found e) rest = record { events = e ∷ rest.events; raised = rest.raised }

module _ (lookup_function_by_selector : String → Found (String × (String → Decoded)))
    (chain_id : String) (h : BlockHeader) where
  abbrev call_event : Tx → String → String → Fields → Event
  call_event tx to_addr name args = record {
    chain_id = chain_id;
    block_number = h.number;
    block_hash = h.hash;
    block_timestamp = h.timestamp;
    tx_hash = tx.hash;
    tx_index = some tx.index;
    log_index = none;
    kind = call;
    contract = some (lower to_addr);
    name = some name;
    args = args;
    raw = field "tx_hash" (str tx.hash) (field "input" (str tx.input) end);
  }

  abbrev call_to : Tx → String → Found Event
  call_to tx to_addr =
      if ltb (Text.length tx.input) 10
      then absent
      else elim (lookup_function_by_selector (lower (take 10 tx.input))) [
        | absent ↦ absent
        | raised ↦ raised
        | found (name, decoder) ↦ elim (decoder tx.input) [
          | decode_failed ↦ absent
          | escaped ↦ raised
          | decoded args ↦ found (call_event tx to_addr name args)
        ]
      ]

  unfoldable pub handle_tx : Tx → Found Event
  unfolding lower take Text.length
  handle_tx tx =
      if not (tx.status == 1)
      then absent
      else elim tx.to_addr [ none ↦ absent | some to_addr ↦ call_to tx to_addr ]

  unfoldable pub handle_txs : List Tx → Yielded
  unfolding handle_tx
  handle_txs [] = quiet
  handle_txs (tx ∷ txs) = yields (handle_tx tx) (handle_txs txs)

-- `parse` of AbiCallParser
unfoldable pub parse_calls :
    (String → Found (String × (String → Decoded))) → String → Block → Yielded
unfolding handle_txs
parse_calls lookup chain_id block = handle_txs lookup chain_id block.header block.txs
