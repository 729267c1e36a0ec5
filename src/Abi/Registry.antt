-- ===== src/Abi/Registry.antt =====
-- core/abi/registry.py: the registry of ABIs, with its indexes by topic, selector and discriminator, its
-- caches and the decoders that it keeps. The hash of a body is a parameter, as are those of signatures and
-- discriminators. `none` is an exception.
pub mod Lookup
pub mod Coherent
use mathlib.Core.Option
use chain_indexer.Base.{
  ℕ, String, Bool, true, false, not, ◌&&◌, Option, none, some, List, [], ◌∷◌, map, ◌==◌,
  string_comparable, pair_comparable, if◌then◌else◌,
}
use chain_indexer.Base.Text.{lower}
use chain_indexer.Base.Dict.{Dict, get, put, remove}
use chain_indexer.Config.Snapshot.{SnapshotAbi, ConfigSnapshot}
use chain_indexer.Notify.Payload.{hex_of}
use chain_indexer.Parse.Value.{
  Value, null, str, list, dict, Values, nil, cons, Fields, end, lookup_field,
}
use chain_indexer.Abi.Signature.{text_of, event_topic0, function_selector}
use chain_indexer.Abi.Borsh.{
  Layout, Resolved, resolved, unsupported, raised, get_or, build_anchor_event_struct,
  anchor_event_discriminator, anchor_call_discriminator,
}

-- The closures that decode with an entry: `decode_event` and `decode_function_call`.
pub data Decoder : Type 0 where
  of_event of_function : Value → Decoder

pub record AbiRegistry : Type 0 where
  pub abis : Dict String SnapshotAbi
  pub hashes : Dict String String
  pub decoders : Dict (String × String) Decoder
  pub topic0_index : Dict String (String × String)
  pub topic0_cache : Dict String (String × Decoder)
  pub selector_index : Dict String (String × String)
  pub selector_cache : Dict String (String × Decoder)
  pub anchor_index : Dict (String × String) (String × String × Layout)
  pub anchor_cache : Dict (String × String) (String × Layout)
  pub anchor_call_index : Dict (String × String) (String × String × Layout)
  pub anchor_call_cache : Dict (String × String) (String × Layout)

abbrev pub create : AbiRegistry
create = record {
  abis = [];
  hashes = [];
  decoders = [];
  topic0_index = [];
  topic0_cache = [];
  selector_index = [];
  selector_cache = [];
  anchor_index = [];
  anchor_cache = [];
  anchor_call_index = [];
  anchor_call_cache = [];
}

-- `body if isinstance(body, list) else [body]`
unfoldable pub entries_of : Value → Values
entries_of (list vs) = vs
entries_of v = cons v nil

-- On an entry that is no dict, `entry.get` raises.
abbrev pub is_dict : Value → Bool
is_dict (dict fs) = true
is_dict v = false

abbrev pub all_dicts : Values → Bool
all_dicts nil = true
all_dicts (cons v vs) = is_dict v && all_dicts vs

-- Every entry of every ABI is a dict.
unfoldable pub have_dicts : Dict String SnapshotAbi → Bool
unfolding entries_of
have_dicts [] = true
have_dicts ((abi_id, abi) ∷ abis) = all_dicts (entries_of abi.body) && have_dicts abis

-- `entry.get("type") == kind` of a dict.
unfoldable pub has_type : String → Value → Bool
unfolding text_of
has_type kind entry = elim (text_of "type" entry) [ none ↦ false | some t ↦ t == kind ]

-- The index of the entries of one kind by their topic or selector.
module _ (kind : String) (key_of : Value → Option String) where
  -- A key that is indexed already is not indexed again.
  abbrev index_entry :
      String → Value → Option String → Dict String (String × String) → Dict String (String × String)
  index_entry abi_id entry none idx = idx
  index_entry abi_id entry (some key) idx = elim (get (lower key) idx) [
    | some taken ↦ idx
    | none ↦ put (lower key) (abi_id, Option.get_or (text_of "name" entry) "") idx
  ]

  unfoldable pub index_entries :
      String → Values → Dict String (String × String) → Dict String (String × String)
  unfolding text_of has_type lower get put
  index_entries abi_id nil idx = idx
  index_entries abi_id (cons entry entries) idx =
      index_entries abi_id entries
        (if has_type kind entry then index_entry abi_id entry (key_of entry) idx else idx)

  unfoldable pub index_abis :
      Dict String SnapshotAbi → Dict String (String × String) → Dict String (String × String)
  unfolding index_entries entries_of
  index_abis [] idx = idx
  index_abis ((abi_id, abi) ∷ abis) idx =
      index_abis abis (index_entries abi_id (entries_of abi.body) idx)

abbrev pub AnchorIndex : Type 0
AnchorIndex = Dict (String × String) (String × String × Layout)

-- `body.get("metadata", {}).get("address")`, where a body that is no dict has none; an address that
-- is no text is read as a missing one.
unfoldable pub program_of : Value → Option (Option String)
unfolding get_or text_of
program_of (dict fs) = elim (get_or "metadata" (dict end) (dict fs)) [
  | none ↦ none
  | some metadata ↦ elim (get_or "address" null metadata) [
    | none ↦ none
    | some address ↦ some (text_of "address" metadata)
  ]
]
program_of body = some none

-- The index of an IDL's items: events under "events", or calls under "instructions" with the fields of a
-- call, each with the discriminator of its name.
module _ (section : String) (fields_of : Value → Option Value)
    (discriminator : String → List ℕ) where
  abbrev index_layout :
      String → String → String → Resolved Layout → AnchorIndex → Option AnchorIndex
  index_layout abi_id program_id name raised idx = none
  index_layout abi_id program_id name unsupported idx = some idx
  index_layout abi_id program_id name (resolved layout) idx =
      elim (get (program_id, hex_of (discriminator name)) idx) [
        | some taken ↦ some idx
        | none ↦ some (put (program_id, hex_of (discriminator name)) (abi_id, name, layout) idx)
      ]

  -- The name of an item that has none is empty; a name that is no text is read as an exception.
  abbrev name_of : Value → Option String
  name_of item = elim (get_or "name" (str "") item) [ some (str name) ↦ some name | _ ↦ none ]

  abbrev index_item :
      String → String → Value → Option String → Value → AnchorIndex → Option AnchorIndex
  index_item abi_id program_id types none item idx = none
  index_item abi_id program_id types (some name) item idx =
      index_layout abi_id program_id name (build_anchor_event_struct (fields_of item) types) idx

  unfoldable pub index_items : String → String → Value → Values → AnchorIndex → Option AnchorIndex
  unfolding get_or build_anchor_event_struct get put hex_of
  index_items abi_id program_id types nil idx = some idx
  index_items abi_id program_id types (cons item items) idx =
      elim (index_item abi_id program_id types (name_of item) item idx) [
        | none ↦ none
        | some idx' ↦ index_items abi_id program_id types items idx'
      ]

  abbrev index_body : String → Value → String → AnchorIndex → Option AnchorIndex
  index_body abi_id body program_id idx =
      if program_id == "" then some idx else elim (get_or section (list nil) body) [
        | some (list items) ↦ elim (get_or "types" (list nil) body) [
          | none ↦ none
          | some types ↦ index_items abi_id program_id types items idx
        ]
        | _ ↦ none
      ]

  abbrev index_idl : String → Value → Option (Option String) → AnchorIndex → Option AnchorIndex
  index_idl abi_id body none idx = none
  index_idl abi_id body (some none) idx = some idx
  index_idl abi_id body (some (some program_id)) idx = index_body abi_id body program_id idx

  unfoldable pub index_idls : Dict String SnapshotAbi → AnchorIndex → Option AnchorIndex
  unfolding program_of index_items get_or
  index_idls [] idx = some idx
  index_idls ((abi_id, abi) ∷ abis) idx =
      elim (if abi.kind == "solana_idl"
        then index_idl abi_id abi.body (program_of abi.body) idx
        else some idx) [ none ↦ none | some idx' ↦ index_idls abis idx' ]

-- `ev.get("fields", [])` of an event, and `ix_def.get("args", ix_def.get("fields", []))` of a call.
unfoldable pub event_fields_of : Value → Option Value
unfolding get_or
event_fields_of ev = get_or "fields" (list nil) ev

unfoldable pub call_args_of : Value → Option Value
unfolding get_or
call_args_of ix_def = elim (get_or "fields" (list nil) ix_def) [
  | none ↦ none
  | some fields ↦ get_or "args" fields ix_def
]

-- `{a.id: a for a in snap.abis}`
unfoldable pub abi_dict : List SnapshotAbi → Dict String SnapshotAbi → Dict String SnapshotAbi
unfolding put
abi_dict [] m = m
abi_dict (a ∷ abis) m = abi_dict abis (put a.id a m)

-- The decoders without those of an ABI.
unfoldable pub without : String → Dict (String × String) Decoder → Dict (String × String) Decoder
without abi_id [] = []
without abi_id (((aid, k), d) ∷ ds) =
    if aid == abi_id then without abi_id ds else ((aid, k), d) ∷ without abi_id ds

unfoldable pub evict : String → AbiRegistry → AbiRegistry
unfolding without remove
evict abi_id r = record r { decoders = without abi_id r.decoders; hashes = remove abi_id r.hashes }

abbrev pub keys : Dict String String → List String
keys [] = []
keys ((k, h) ∷ m) = k ∷ keys m

module _ (hash_body : Value → String) where
  -- The ABI is still there, with the body that was hashed.
  abbrev pub is_kept : Option SnapshotAbi → Option String → Bool
  is_kept (some abi) (some h) = hash_body abi.body == h
  is_kept abi h = false

  unfoldable pub evict_changed : List String → Dict String SnapshotAbi → AbiRegistry → AbiRegistry
  unfolding evict get
  evict_changed [] new_abis r = r
  evict_changed (abi_id ∷ ids) new_abis r =
      evict_changed ids new_abis
        (if is_kept (get abi_id new_abis) (get abi_id r.hashes) then r else evict abi_id r)

  -- `{aid: _hash_body(a.body) for aid, a in new_abis.items()}`
  unfoldable pub hash_all : Dict String SnapshotAbi → Dict String String
  hash_all [] = []
  hash_all ((abi_id, a) ∷ abis) = (abi_id, hash_body a.body) ∷ hash_all abis

  module _
      (event_signature_to_log_topic function_signature_to_4byte_selector sha256 : String
        → List ℕ) where
    abbrev pub with_indexes :
        AbiRegistry → Dict String SnapshotAbi → AnchorIndex → AnchorIndex → AbiRegistry
    with_indexes r new_abis anchor_index anchor_call_index = record {
      abis = new_abis;
      hashes = hash_all new_abis;
      decoders = r.decoders;
      topic0_index = index_abis "event" (event_topic0 event_signature_to_log_topic) new_abis [];
      topic0_cache = [];
      selector_index =
          index_abis "function" (function_selector function_signature_to_4byte_selector) new_abis
            [];
      selector_cache = [];
      anchor_index = anchor_index;
      anchor_cache = [];
      anchor_call_index = anchor_call_index;
      anchor_call_cache = [];
    }

    abbrev pub rebuild : AbiRegistry → Dict String SnapshotAbi → Option AbiRegistry
    rebuild r new_abis =
        if have_dicts new_abis
        then elim (index_idls "events" event_fields_of (anchor_event_discriminator sha256) new_abis
            []) [
              | none ↦ none
              | some anchors ↦
                  elim (index_idls "instructions" call_args_of (anchor_call_discriminator sha256)
                    new_abis []) [
                      | none ↦ none
                      | some calls ↦ some (with_indexes r new_abis anchors calls)
                    ]
            ]
        else none

    unfoldable pub refresh : AbiRegistry → ConfigSnapshot → Option AbiRegistry
    unfolding abi_dict have_dicts evict_changed hash_all index_abis index_idls event_topic0
        function_selector
    refresh r snap =
        rebuild (evict_changed (keys r.hashes) (abi_dict snap.abis []) r) (abi_dict snap.abis [])

unfoldable pub first_topic : String → String → Dict String (String × String) → Option String
first_topic abi_id event_name [] = none
first_topic abi_id event_name ((t0, (aid, name)) ∷ idx) =
    if (aid == abi_id) && (name == event_name) then some t0 else first_topic abi_id event_name idx

unfoldable pub event_topic0_for : AbiRegistry → String → String → Option String
unfolding first_topic
event_topic0_for registry abi_id event_name = first_topic abi_id event_name registry.topic0_index
