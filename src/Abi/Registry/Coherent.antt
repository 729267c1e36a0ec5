-- ===== src/Abi/Registry/Coherent.antt =====
-- core/abi/registry.py: what it means that the caches agree with the ABIs and the indexes, and the answers that
-- the lookups give when nothing is cached.
pub mod Decoders
pub mod Lookups
pub mod Evict
pub mod Refresh
use chain_indexer.Base.{
  ℕ, ◌≡◌, String, Option, none, some, List, length, string_comparable, pair_comparable, All, arith,
}
use chain_indexer.Base.Text.{lower}
use chain_indexer.Base.Dict.{Dict, get, IsKeyed}
use chain_indexer.Parse.Value.{Value}
use chain_indexer.Abi.Borsh.{Layout}
use chain_indexer.Abi.Signature.{event_topic0, function_selector}
use chain_indexer.Abi.Registry.{AbiRegistry, Decoder, of_event, of_function}
use chain_indexer.Abi.Registry.Lookup.{Found, found, absent, raised, entry_of}

-- The answers of an indexed layout.
abbrev pub layout_of : Option (String × String × Layout) → Option (String × Layout)
layout_of none = none
layout_of (some (abi_id, name, layout)) = some (name, layout)

abbrev pub LayoutsAgree :
    Dict (String × String) (String × String × Layout)
    → Dict (String × String) (String × Layout)
    → Type 0
LayoutsAgree index cache =
    (key : String × String) (hit : String × Layout)
    → get key cache ≡ some hit
    → layout_of (get key index) ≡ some hit

module _ (event_signature_to_log_topic function_signature_to_4byte_selector : String → List ℕ) where
  abbrev pub event_of : String → String → AbiRegistry → Option Value
  event_of = entry_of "event" (event_topic0 event_signature_to_log_topic)

  abbrev pub function_of : String → String → AbiRegistry → Option Value
  function_of = entry_of "function" (function_selector function_signature_to_4byte_selector)

  -- The decoder is one for the entry that the ABI has under the key.
  abbrev pub IsDecoderOf : AbiRegistry → String → String → Decoder → Type 0
  IsDecoderOf r abi_id key (of_event e) = event_of abi_id key r ≡ some e
  IsDecoderOf r abi_id key (of_function f) = function_of abi_id key r ≡ some f

  abbrev pub named : (Value → Decoder) → String → Option Value → Found (String × Decoder)
  named close name none = raised
  named close name (some e) = found (name, close e)

  -- What the lookups answer without caches: the decoder of the entry that the index names.
  abbrev pub event_answer :
      AbiRegistry → String → Option (String × String) → Found (String × Decoder)
  event_answer r key none = absent
  event_answer r key (some (abi_id, name)) = named of_event name (event_of abi_id key r)

  abbrev pub function_answer :
      AbiRegistry → String → Option (String × String) → Found (String × Decoder)
  function_answer r key none = absent
  function_answer r key (some (abi_id, name)) = named of_function name (function_of abi_id key r)

  pub record IsCoherent (r : AbiRegistry) : Type 0 where
    pub decoders_agree :
        (abi_id key : String) (d : Decoder)
        → get (abi_id, key) r.decoders ≡ some d
        → IsDecoderOf r abi_id key d
    pub topics_agree :
        (key : String) (hit : String × Decoder)
        → get key r.topic0_cache ≡ some hit
        → event_answer r key (get key r.topic0_index) ≡ found hit
    pub selectors_agree :
        (key : String) (hit : String × Decoder)
        → get key r.selector_cache ≡ some hit
        → function_answer r key (get key r.selector_index) ≡ found hit
    pub anchors_agree : LayoutsAgree r.anchor_index r.anchor_cache
    pub calls_agree : LayoutsAgree r.anchor_call_index r.anchor_call_cache
