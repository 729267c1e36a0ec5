-- ===== src/Parse/Internal.antt =====
-- core/parser/internal_call.py: the calls inside the traces of a block. The registry of ABIs is a
-- parameter: its lookup of a selector gives the name of a function and its decoder, nothing, or an exception.
pub mod Depth
use chain_indexer.Base.{
  ℕ, zero, suc, String, Bool, true, false, not, ◌||◌, Option, none, some, [], ◌∷◌, ltb, ◌==◌,
  string_comparable, if◌then◌else◌,
}
use mathlib.Core.Option
use chain_indexer.Base.Text
use chain_indexer.Base.Text.{decimal, lower, take}
use chain_indexer.Chain.Types.{
  Block, CallFrame, InternalCall, internal_call, InternalCalls, nil, cons,
}
use chain_indexer.Config.Snapshot.{call}
use chain_indexer.Parse.Value.{str, bool, Fields, end, field}
use chain_indexer.Parse.Event.{Event}
use chain_indexer.Parse.Pipeline.{Yielded, quiet, continued}
use chain_indexer.Abi.Decoder.{Decoded, decoded, decode_failed, raised as escaped}
use chain_indexer.Abi.Registry.Lookup.{Found, found, absent, raised}

module _ (lookup_function_by_selector : String → Found (String × (String → Decoded)))
    (chain_id : String) (block : Block) where
  unfoldable pub event_of : Option String → Option String → Fields → Fields → Event
  event_of contract name args raw = record {
    chain_id = chain_id;
    block_number = block.header.number;
    block_hash = block.header.hash;
    block_timestamp = block.header.timestamp;
    tx_hash = "";
    tx_index = none;
    log_index = none;
    kind = call;
    contract = contract;
    name = name;
    args = args;
    raw = raw;
  }

  abbrev created : CallFrame → Event
  created f =
      event_of f.created_address (some "<create>") (field "value" (str (decimal f.value)) end)
        (field "type" (str f.type) end)

  abbrev called : CallFrame → String → Fields → Event
  called f name args =
      event_of (some (lower (Option.get_or f.to_addr ""))) (some name) args
        (field "type" (str f.type) (field "internal" (bool true) end))

  -- `absent` is None, and `raised` an exception other than DecodeFailed.
  unfoldable pub try_decode : CallFrame → Found Event
  unfolding lower take Text.length
  try_decode f =
      if (f.type == "CREATE") || (f.type == "CREATE2")
      then found (created f)
      else if ltb (Text.length f.input) 10
      then absent
      else elim (lookup_function_by_selector (lower (take 10 f.input))) [
        | absent ↦ absent
        | raised ↦ raised
        | found (name, decoder) ↦ elim (decoder f.input) [
          | decode_failed ↦ absent
          | escaped ↦ raised
          | decoded args ↦ found (called f name args)
        ]
      ]

  abbrev yielded : Found Event → Yielded
  yielded absent = quiet
  yielded raised = record { events = []; raised = true }
  yielded (found e) = record { events = e ∷ []; raised = false }

  abbrev pub own_event : CallFrame → Yielded
  own_event f = yielded (try_decode f)

  -- `_walk`; a call that failed gives neither its own event nor those of the calls in it.
  unfoldable mutual
    pub walk : InternalCall → ℕ → Yielded
    walk (internal_call f calls) depth = elim f.error [
      | some error ↦ quiet
      | none ↦ if ltb 64 depth then quiet else continued (own_event f) (walk_all calls (suc depth))
    ]

    pub walk_all : InternalCalls → ℕ → Yielded
    walk_all nil depth = quiet
    walk_all (cons c cs) depth = continued (walk c depth) (walk_all cs depth)

  unfoldable pub parse : InternalCalls → Yielded
  unfolding walk_all
  parse traces = walk_all traces 0
