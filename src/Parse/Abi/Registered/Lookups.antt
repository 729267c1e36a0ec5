-- ===== src/Parse/Abi/Registered/Lookups.antt =====
-- The parser of core/parser/abi_event.py with the registry, and with lookups that keep no state.
use chain_indexer.Base.{
  ℕ, ◌≡◌, refl, ap, ◌∙◌, String, Option, none, some, List, [], ◌∷◌, length, All, string_comparable,
}
use chain_indexer.Base.Text
use chain_indexer.Base.Text.{lower}
use chain_indexer.Base.Dict.{get}
use chain_indexer.Chain.Types.{BlockHeader, Log}
use chain_indexer.Parse.Value.{Value}
use chain_indexer.Parse.Event.{Event}
use chain_indexer.Parse.Pipeline.{Yielded}
use chain_indexer.Parse.Abi.{yields}
use chain_indexer.Parse.Abi.Registered.{event_for, parse_with, parse_registered}
use chain_indexer.Abi.Signature.{event_topic0}
use chain_indexer.Abi.Registry.{AbiRegistry, Decoder, of_event}
use chain_indexer.Abi.Registry.Lookup.{Found, found, absent, raised, lookup_event_by_topic0}
use chain_indexer.Abi.Registry.Coherent.{IsCoherent, named, event_answer}
use chain_indexer.Abi.Registry.Coherent.Lookups.{
  SameAbis, unchanged, entry_of-same, lookup_event_by_topic0-answer,
}

-- The first topic of a log has 66 characters.
abbrev pub IsSized : Log → Type 0
IsSized entry =
    (topic0 : String) (topics : List String)
    → entry.topics ≡ topic0 ∷ topics
    → Text.length topic0 ≡ 66

module _ (eth_abi_decode : List String → List ℕ → Option (List Value)) (chain_id : String)
    (h : BlockHeader)
    (event_signature_to_log_topic function_signature_to_4byte_selector : String → List ℕ) where
  abbrev made : Log → Found (String × Decoder) → Found Event
  made = event_for eth_abi_decode chain_id h

  abbrev stateless : (String → Found (String × Decoder)) → List Log → Yielded
  stateless = parse_with eth_abi_decode chain_id h

  abbrev registered : List Log → AbiRegistry → Yielded × AbiRegistry
  registered =
      parse_registered eth_abi_decode chain_id h event_signature_to_log_topic
        function_signature_to_4byte_selector

  -- What the ABIs and indexes of a registry answer.
  abbrev pub answer_in : AbiRegistry → String → Found (String × Decoder)
  answer_in r topic0 =
      event_answer event_signature_to_log_topic function_signature_to_4byte_selector r
        (lower topic0) (get (lower topic0) r.topic0_index)

  answer_in-same :
      (topic0 : String) (r s : AbiRegistry) → SameAbis r s → answer_in s topic0 ≡ answer_in r topic0
  answer_in-same topic0 r s k =
      ap
        (event_answer event_signature_to_log_topic function_signature_to_4byte_selector s
          (lower topic0))
        (ap (get (lower topic0)) k.topics_same)
      ∙ indexed (get (lower topic0) r.topic0_index)
    where
      indexed :
          (o : Option (String × String))
          → event_answer event_signature_to_log_topic function_signature_to_4byte_selector s
              (lower topic0)
              o
            ≡ event_answer event_signature_to_log_topic function_signature_to_4byte_selector r
                (lower topic0)
                o
      indexed none = refl
      indexed (some (abi_id, name)) =
          ap (named event_signature_to_log_topic function_signature_to_4byte_selector of_event name)
            (entry_of-same "event" (event_topic0 event_signature_to_log_topic) abi_id (lower topic0)
              r s k)

  then_same : (r s t : AbiRegistry) → SameAbis r s → SameAbis s t → SameAbis r t
  then_same r s t j k = record {
    abis_same = k.abis_same ∙ j.abis_same;
    topics_same = k.topics_same ∙ j.topics_same;
    selectors_same = k.selectors_same ∙ j.selectors_same;
    anchors_same = k.anchors_same ∙ j.anchors_same;
    calls_same = k.calls_same ∙ j.calls_same;
    hashes_same = k.hashes_same ∙ j.hashes_same;
  }

  module _ (selector_sized : (s : String) → length (function_signature_to_4byte_selector s) ≡ 4)
      (r₀ : AbiRegistry) where
    abbrev pub Agrees : List Log → Yielded × AbiRegistry → Type 0
    Agrees entries out =
        (out.0 ≡ stateless (answer_in r₀) entries)
        × IsCoherent event_signature_to_log_topic function_signature_to_4byte_selector out.1

    kept :
        (out : Found Event) (stopped went_on : AbiRegistry)
        → IsCoherent event_signature_to_log_topic function_signature_to_4byte_selector stopped
        → IsCoherent event_signature_to_log_topic function_signature_to_4byte_selector went_on
        → IsCoherent event_signature_to_log_topic function_signature_to_4byte_selector
            (elim out [ raised ↦ stopped | _ ↦ went_on ])
    kept (found e) stopped went_on c d = d
    kept absent stopped went_on c d = d
    kept raised stopped went_on c d = c

    abbrev after : String → AbiRegistry → AbiRegistry
    after topic0 r =
        (lookup_event_by_topic0 event_signature_to_log_topic function_signature_to_4byte_selector
          topic0 r).1

    abbrev registered_step : Log → List Log → String → AbiRegistry → Yielded × AbiRegistry
    registered_step entry entries topic0 r =
        let rest = registered entries (after topic0 r) in
        (
          yields
              (made entry
                (lookup_event_by_topic0 event_signature_to_log_topic
                  function_signature_to_4byte_selector topic0 r).0)
              rest.0,
          elim (made entry
              (lookup_event_by_topic0 event_signature_to_log_topic
                function_signature_to_4byte_selector topic0 r).0) [
                  | raised ↦ after topic0 r
                  | _ ↦ rest.1
                ],
        )

    abbrev registered_by : Log → List Log → AbiRegistry → List String → Yielded × AbiRegistry
    registered_by entry entries r [] = registered entries r
    registered_by entry entries r (topic0 ∷ others) = registered_step entry entries topic0 r

    abbrev with_by : Log → List Log → List String → Yielded
    with_by entry entries [] = stateless (answer_in r₀) entries
    with_by entry entries (topic0 ∷ others) =
        yields (made entry (answer_in r₀ topic0)) (stateless (answer_in r₀) entries)

    stepped :
        (entry : Log) (entries : List Log) (r : AbiRegistry)
        → IsSized entry
        → SameAbis r₀ r
        → IsCoherent event_signature_to_log_topic function_signature_to_4byte_selector r
        → ((s : AbiRegistry)
            → SameAbis r₀ s
            → IsCoherent event_signature_to_log_topic function_signature_to_4byte_selector s
            → Agrees entries (registered entries s))
        → Agrees (entry ∷ entries) (registered (entry ∷ entries) r)
    unfolding parse_registered parse_with
    stepped entry entries r sized k c ih = by_topics entry.topics refl
      where
        by_topics :
            (topics : List String)
            → entry.topics ≡ topics
            → ((registered_by entry entries r topics).0 ≡ with_by entry entries topics)
              × IsCoherent event_signature_to_log_topic function_signature_to_4byte_selector
                  (registered_by entry entries r topics).1
        by_topics [] e = ih r k c
        by_topics (topic0 ∷ topics) e =
            let answer =
              lookup_event_by_topic0-answer event_signature_to_log_topic
                function_signature_to_4byte_selector selector_sized topic0 r (sized topic0 topics e)
                c in
            let rest = ih (after topic0 r) (then_same r₀ r (after topic0 r) k answer.2) answer.1 in
            (
              ap (λ a. yields (made entry a) (registered entries (after topic0 r)).0)
                    (answer.0 ∙ answer_in-same topic0 r₀ r k)
                  ∙ ap (yields (made entry (answer_in r₀ topic0))) rest.0,
              kept
                  (made entry
                    (lookup_event_by_topic0 event_signature_to_log_topic
                      function_signature_to_4byte_selector topic0 r).0)
                  (after topic0 r) (registered entries (after topic0 r)).1 answer.1 rest.1,
            )

    parsed :
        (entries : List Log) (r : AbiRegistry)
        → All IsSized entries
        → SameAbis r₀ r
        → IsCoherent event_signature_to_log_topic function_signature_to_4byte_selector r
        → Agrees entries (registered entries r)
    unfolding parse_registered parse_with
    parsed [] r a k c = (refl, c)
    parsed (entry ∷ entries) r a k c = stepped entry entries r a.0 k c (λ s. parsed entries s a.1)

    -- The parser with the registry yields what it yields with lookups that keep no state, those of the
    -- ABIs and indexes that the registry started with, and leaves the caches in agreement with the ABIs.
    -- The caches agree at the start, and each first topic has 66 characters.
    pub parse_registered-parse_with :
        (entries : List Log)
        → All IsSized entries
        → IsCoherent event_signature_to_log_topic function_signature_to_4byte_selector r₀
        → Agrees entries (registered entries r₀)
    parse_registered-parse_with entries a c = parsed entries r₀ a (unchanged r₀) c
