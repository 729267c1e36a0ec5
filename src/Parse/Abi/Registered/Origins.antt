-- ===== src/Parse/Abi/Registered/Origins.antt =====
-- core/parser/abi_event.py: which logs the events of the parser come from.
use chain_indexer.Base.{
  ℕ, String, ◌≡◌, Bool, true, false, Option, some, List, [], ◌∷◌, ◌++◌, map, filter,
}
use chain_indexer.Chain.Types.{BlockHeader, Log}
use chain_indexer.Parse.Value.{Value}
use chain_indexer.Parse.Event.{Event}
use chain_indexer.Parse.Pipeline.{Yielded}
use chain_indexer.Parse.Abi.{yields}
use chain_indexer.Parse.Abi.Registered.{event_for, parse_registered}
use chain_indexer.Abi.Decoder.{raised as escaped}
use chain_indexer.Abi.Registry.{AbiRegistry, Decoder}
use chain_indexer.Abi.Registry.Lookup.{Found, found, absent, raised, lookup_event_by_topic0}

abbrev pub has_topics : Log → Bool
has_topics entry = elim entry.topics [ [] ↦ false | t ∷ ts ↦ true ]

-- Where an event comes from, and where a log stands.
abbrev pub origin : Event → String × Option ℕ
origin e = (e.tx_hash, e.log_index)

abbrev pub place : Log → String × Option ℕ
place entry = (entry.tx_hash, some entry.log_index)

-- The events come from the first logs with topics, and from all of them unless the parser is ended.
abbrev pub Placed : List Log → Yielded → Type 0
Placed entries out =
    (rest : List (String × Option ℕ)) × (map origin out.events ++ rest
      ≡ map place (filter has_topics entries))
    × (out.raised ≡ false → rest ≡ [])

-- A log with topics gives an event at its place, or ends the parser.
abbrev IsAt : Log → Found Event → Type 0
IsAt entry raised = Unit
IsAt entry absent = ⊥
IsAt entry (found e) = origin e ≡ place entry

module _ (eth_abi_decode : List String → List ℕ → Option (List Value)) (chain_id : String)
    (h : BlockHeader) where
  module _
      (event_signature_to_log_topic function_signature_to_4byte_selector : String → List ℕ) where
    abbrev registered : List Log → AbiRegistry → Yielded × AbiRegistry
    registered =
        parse_registered eth_abi_decode chain_id h event_signature_to_log_topic
          function_signature_to_4byte_selector

    abbrev looked_up : String → AbiRegistry → Found (String × Decoder) × AbiRegistry
    looked_up =
        lookup_event_by_topic0 event_signature_to_log_topic function_signature_to_4byte_selector

    abbrev first_of : Log → List Log → AbiRegistry → List String → Yielded × AbiRegistry
    first_of entry entries r [] = registered entries r
    first_of entry entries r (topic0 ∷ others) =
        let rest = registered entries (looked_up topic0 r).1 in
        (
          yields (event_for eth_abi_decode chain_id h entry (looked_up topic0 r).0) rest.0,
          elim (event_for eth_abi_decode chain_id h entry (looked_up topic0 r).0) [
            | raised ↦ (looked_up topic0 r).1
            | _ ↦ rest.1
          ],
        )
