-- ===== src/Parse/Internal/Depth/Tests.antt =====
-- The calls of a concrete trace: one that failed, with a call inside it, two that create a
-- contract, and between these one whose lookup raises.
use chain_indexer.Base.{String, ◌≡◌, true, Option, none, some, [], filter}
use chain_indexer.Chain.Types.{Block, CallFrame, internal_call, InternalCalls, nil, cons}
use chain_indexer.Abi.Decoder.{Decoded}
use chain_indexer.Abi.Registry.Lookup.{Found, raised}
use chain_indexer.Parse.Internal.{parse}
use chain_indexer.Parse.Internal.Depth.{counts, visits_all, events_of, parse-visits}

abbrev frame : String → Option String → CallFrame
frame type error = record {
  type = type;
  from_addr = "0xa";
  to_addr = some "0xb";
  value = 5;
  gas = 0;
  input = "0x";
  output = "0x";
  error = error;
  created_address = some "0xc";
}

abbrev asked : CallFrame
asked = record (frame "CALL" none) { input = "0x12345678" }

abbrev traces : InternalCalls
traces =
    cons
      (internal_call (frame "CALL" (some "revert"))
        (cons (internal_call (frame "CREATE" none) nil) nil))
      (cons (internal_call (frame "CREATE2" none) nil)
        (cons (internal_call asked nil) (cons (internal_call (frame "CREATE" none) nil) nil)))

abbrev block : Block
block = record {
  header = record { number = 7; hash = "0x7"; parent_hash = "0x6"; timestamp = 0 };
  txs = [];
  logs = [];
}

abbrev failing : String → Found (String × (String → Decoded))
failing selector = raised

parse-visits_example :
    parse failing "eth" block traces
    ≡ events_of failing "eth" block (filter counts (visits_all traces 0 true))
parse-visits_example = parse-visits failing "eth" block traces
