-- ===== src/Parse/Abi/Registered.antt =====
-- core/parser/abi_event.py with the registry of ABIs, whose caches each lookup fills, and its decoders. An
-- exception other than DecodeFailed ends the parser, and the events that it yielded stay.
pub mod Lookups
pub mod Origins
mod Tests
use chain_indexer.Base.{ℕ, String, true, false, Option, some, List, [], ◌∷◌}
use chain_indexer.Chain.Types.{BlockHeader, Log}
use chain_indexer.Parse.Value.{Value, Fields, end}
use chain_indexer.Parse.Event.{Event}
use chain_indexer.Parse.Pipeline.{Yielded}
use chain_indexer.Parse.Abi.{log_event, downgraded, yields}
use chain_indexer.Abi.Decoder.{Decoded, decoded, decode_failed, raised as escaped, decode_event}
use chain_indexer.Abi.Registry.{AbiRegistry, Decoder, of_event, of_function}
use chain_indexer.Abi.Registry.Lookup.{Found, found, absent, raised, lookup_event_by_topic0}

module _ (eth_abi_decode : List String → List ℕ → Option (List Value)) (chain_id : String)
    (h : BlockHeader) where
  -- A decoder of a function does not take topics.
  abbrev pub decode_with : Decoder → List String → String → Decoded
  decode_with (of_event e) topics payload = decode_event eth_abi_decode e topics payload
  decode_with (of_function f) topics payload = escaped

  abbrev pub decoded_event : Log → String → Decoded → Found Event
  decoded_event entry name (decoded args) = found (log_event chain_id h entry (some name) args end)
  decoded_event entry name decode_failed = found (downgraded chain_id h entry)
  decoded_event entry name escaped = raised

  abbrev pub event_for : Log → Found (String × Decoder) → Found Event
  event_for entry absent = found (downgraded chain_id h entry)
  event_for entry raised = raised
  event_for entry (found (name, d)) =
      decoded_event entry name (decode_with d entry.topics entry.payload)

  -- The parser with lookups that keep no state.
  unfoldable pub parse_with : (String → Found (String × Decoder)) → List Log → Yielded
  unfolding decode_event
  parse_with lookup [] = record { events = []; raised = false }
  parse_with lookup (entry ∷ entries) = elim entry.topics [
    | [] ↦ parse_with lookup entries
    | topic0 ∷ topics ↦ yields (event_for entry (lookup topic0)) (parse_with lookup entries)
  ]

  module _
      (event_signature_to_log_topic function_signature_to_4byte_selector : String → List ℕ) where
    -- The parser with the registry, and the registry after it.
    unfoldable pub parse_registered : List Log → AbiRegistry → Yielded × AbiRegistry
    unfolding lookup_event_by_topic0 decode_event
    parse_registered [] r = (record { events = []; raised = false }, r)
    parse_registered (entry ∷ entries) r = elim entry.topics [
      | [] ↦ parse_registered entries r
      | topic0 ∷ topics ↦
          let out =
            lookup_event_by_topic0 event_signature_to_log_topic function_signature_to_4byte_selector
              topic0 r in
          let rest = parse_registered entries out.1 in
          (
            yields (event_for entry out.0) rest.0,
            elim (event_for entry out.0) [ raised ↦ out.1 | _ ↦ rest.1 ],
          )
    ]
