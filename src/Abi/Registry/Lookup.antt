-- ===== src/Abi/Registry/Lookup.antt =====
-- core/abi/registry.py: the lookups of the registry, which fill its caches. Each gives its answer and the
-- registry after it. An exception leaves the registry as it was, as in the source, where the caches are
-- written last.
use chain_indexer.Base.{
  ℕ, String, true, false, Option, none, some, List, ◌==◌, string_comparable, pair_comparable,
}
use chain_indexer.Base.Text.{lower}
use chain_indexer.Base.Dict.{get, put}
use chain_indexer.Config.Snapshot.{SnapshotAbi}
use chain_indexer.Parse.Value.{Value, Values, nil, cons}
use chain_indexer.Abi.Borsh.{Layout}
use chain_indexer.Abi.Signature.{event_topic0, function_selector}
use chain_indexer.Abi.Registry.{
  AbiRegistry, Decoder, of_event, of_function, entries_of, is_dict, has_type,
}

-- An answer, `None`, or an exception.
pub data Found {ℓ} (A : Type ℓ) : Type ℓ where
  found : A → Found A
  absent : Found A
  raised : Found A

abbrev pub body_of : Option SnapshotAbi → Option Value
body_of none = none
body_of (some a) = some a.body

-- `get_body`, where `none` is AbiNotFound.
unfoldable pub get_body : String → AbiRegistry → Option Value
unfolding get
get_body abi_id r = body_of (get abi_id r.abis)

module _ (kind : String) (key_of : Value → Option String) where
  -- The first entry of the kind with the key; `none` is the KeyError, or what it or an entry before it
  -- raises.
  unfoldable pub find_entry : String → Values → Option Value
  unfolding has_type lower
  find_entry key nil = none
  find_entry key (cons entry entries) = elim (is_dict entry) [
    | false ↦ none
    | true ↦ elim (has_type kind entry) [
      | false ↦ find_entry key entries
      | true ↦ elim (key_of entry) [
        | none ↦ none
        | some k ↦ elim (lower k == key) [ true ↦ some entry | false ↦ find_entry key entries ]
      ]
    ]
  ]

  -- The entry with the key in an ABI of the registry; `none` is an exception.
  unfoldable pub entry_of : String → String → AbiRegistry → Option Value
  unfolding find_entry entries_of get_body
  entry_of abi_id key r = elim (get_body abi_id r) [
    | none ↦ none
    | some body ↦ find_entry key (entries_of body)
  ]

  -- `get_event_decoder` and `get_call_decoder`, whose closures are made by `close`.
  unfoldable pub get_decoder :
      (Value → Decoder) → String → String → AbiRegistry → Option Decoder × AbiRegistry
  unfolding get put lower entry_of
  get_decoder close abi_id key r = elim (get (abi_id, lower key) r.decoders) [
    | some cached ↦ (some cached, r)
    | none ↦ elim (entry_of abi_id (lower key) r) [
      | none ↦ (none, r)
      | some entry ↦ (
        some (close entry),
        record r { decoders = put (abi_id, lower key) (close entry) r.decoders },
      )
    ]
  ]

abbrev pub cache_topic0 :
    String → String → Option Decoder × AbiRegistry → Found (String × Decoder) × AbiRegistry
cache_topic0 key name (none, r) = (raised, r)
cache_topic0 key name (some d, r) =
    (found (name, d), record r { topic0_cache = put key (name, d) r.topic0_cache })

abbrev pub cache_selector :
    String → String → Option Decoder × AbiRegistry → Found (String × Decoder) × AbiRegistry
cache_selector key name (none, r) = (raised, r)
cache_selector key name (some d, r) =
    (found (name, d), record r { selector_cache = put key (name, d) r.selector_cache })

module _ (event_signature_to_log_topic function_signature_to_4byte_selector : String → List ℕ) where
  abbrev pub get_event_decoder : String → String → AbiRegistry → Option Decoder × AbiRegistry
  get_event_decoder = get_decoder "event" (event_topic0 event_signature_to_log_topic) of_event

  abbrev pub get_call_decoder : String → String → AbiRegistry → Option Decoder × AbiRegistry
  get_call_decoder =
      get_decoder "function" (function_selector function_signature_to_4byte_selector) of_function

  unfoldable pub lookup_event_by_topic0 :
      String → AbiRegistry → Found (String × Decoder) × AbiRegistry
  unfolding get put lower get_decoder event_topic0
  lookup_event_by_topic0 topic0 r = elim (get (lower topic0) r.topic0_cache) [
    | some cached ↦ (found cached, r)
    | none ↦ elim (get (lower topic0) r.topic0_index) [
      | none ↦ (absent, r)
      | some (abi_id, name) ↦ cache_topic0 (lower topic0) name (get_event_decoder abi_id topic0 r)
    ]
  ]

  unfoldable pub lookup_function_by_selector :
      String → AbiRegistry → Found (String × Decoder) × AbiRegistry
  unfolding get put lower get_decoder function_selector
  lookup_function_by_selector selector r = elim (get (lower selector) r.selector_cache) [
    | some cached ↦ (found cached, r)
    | none ↦ elim (get (lower selector) r.selector_index) [
      | none ↦ (absent, r)
      | some (abi_id, name) ↦
          cache_selector (lower selector) name (get_call_decoder abi_id selector r)
    ]
  ]

unfoldable pub lookup_idl_event_by_discriminator :
    String → String → AbiRegistry → Option (String × Layout) × AbiRegistry
unfolding get put
lookup_idl_event_by_discriminator program_id discriminator_hex r =
    elim (get (program_id, discriminator_hex) r.anchor_cache) [
      | some cached ↦ (some cached, r)
      | none ↦ elim (get (program_id, discriminator_hex) r.anchor_index) [
        | none ↦ (none, r)
        | some (abi_id, name, layout) ↦ (
          some (name, layout),
          record r {
            anchor_cache = put (program_id, discriminator_hex) (name, layout) r.anchor_cache;
          },
        )
      ]
    ]

unfoldable pub lookup_idl_call_by_discriminator :
    String → String → AbiRegistry → Option (String × Layout) × AbiRegistry
unfolding get put
lookup_idl_call_by_discriminator program_id discriminator_hex r =
    elim (get (program_id, discriminator_hex) r.anchor_call_cache) [
      | some cached ↦ (some cached, r)
      | none ↦ elim (get (program_id, discriminator_hex) r.anchor_call_index) [
        | none ↦ (none, r)
        | some (abi_id, name, layout) ↦ (
          some (name, layout),
          record r {
            anchor_call_cache =
                put (program_id, discriminator_hex) (name, layout) r.anchor_call_cache;
          },
        )
      ]
    ]
