-- ===== src/Abi/Tests/Refreshed.antt =====
-- A registry of two ABIs, whose caches a lookup has filled, refreshed with a snapshot in which one of them stays
-- and the other is changed.
use chain_indexer.Base.{String, [], ◌∷◌, string_comparable, pair_comparable}
use chain_indexer.Base.Text
use chain_indexer.Base.Text.{lower}
use chain_indexer.Config.Snapshot.{SnapshotAbi, ConfigSnapshot}
use chain_indexer.Parse.Value.{Value, str, list, dict, nil, cons, end, field}
use chain_indexer.Abi.Registry.{AbiRegistry}
use chain_indexer.Abi.Registry.Lookup.{lookup_event_by_topic0}
use chain_indexer.Abi.Tests.{word_of, four_bytes, topic, amount, paid_abi, one_abi}

-- A hash of the name of the only entry.
abbrev hash_name : Value → String
hash_name (list (cons (dict (field type t (field key (str name) fs))) nil)) = name
hash_name v = ""

-- An ABI with one event, which has the given name.
abbrev other_abi : String → SnapshotAbi
other_abi name = record {
  id = "a2";
  name = "other";
  kind = "evm";
  body = list (
      cons
        (dict (
          field "type" (str "event")
            (field "name" (str name) (field "inputs" (list (cons amount nil)) end))))
        nil);
}

abbrev old_name : String
old_name = "Old"

abbrev new_name : String
new_name = "New"

abbrev two_abis : AbiRegistry
two_abis = record one_abi {
  abis = ("a1", paid_abi) ∷ ("a2", other_abi old_name) ∷ [];
  hashes = ("a1", "Paid") ∷ ("a2", "Old") ∷ [];
}

abbrev looked_up : AbiRegistry
looked_up = (lookup_event_by_topic0 word_of four_bytes topic two_abis).1

abbrev changed : ConfigSnapshot
changed = record {
  version = 2;
  subscriptions = [];
  channels = [];
  chains = [];
  abis = paid_abi ∷ other_abi new_name ∷ [];
}

abbrev first : String
first = "a1"

abbrev second : String
second = "a2"
