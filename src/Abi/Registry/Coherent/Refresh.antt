-- ===== src/Abi/Registry/Coherent/Refresh.antt =====
-- core/abi/registry.py: the ABIs, hashes and decoders after a refresh.
use mathlib.Core.Option
use chain_indexer.Base.{ℕ, ◌≡◌, String, Option, some, List, string_comparable, pair_comparable}
use chain_indexer.Base.Dict.{Dict, get, IsKeyed}
use chain_indexer.Config.Snapshot.{SnapshotAbi}
use chain_indexer.Parse.Value.{Value}
use chain_indexer.Abi.Registry.{AbiRegistry, Decoder, hash_all}
use chain_indexer.Abi.Registry.Lookup.{body_of}
use chain_indexer.Abi.Registry.Coherent.{IsCoherent}

-- The recorded hashes are those of the ABIs, each of which stands once.
pub record IsHashed (hash_body : Value → String) (r : AbiRegistry) : Type 0 where
  pub hashed : r.hashes ≡ hash_all hash_body r.abis
  pub keyed : IsKeyed r.abis

-- The hash tells apart the bodies that an ABI has in two dictionaries.
abbrev pub TellsApart :
    (Value → String) → Dict String SnapshotAbi → Dict String SnapshotAbi → Type 0
TellsApart hash_body m n =
    (id : String) (a b : SnapshotAbi)
    → get id m ≡ some a
    → get id n ≡ some b
    → hash_body a.body ≡ hash_body b.body
    → a.body ≡ b.body

module _ (hash_body : Value → String) where
  module _
      (event_signature_to_log_topic function_signature_to_4byte_selector sha256 : String
        → List ℕ) where
    abbrev pub IsWell : AbiRegistry → Type 0
    IsWell r =
        IsCoherent event_signature_to_log_topic function_signature_to_4byte_selector r
        × IsHashed hash_body r

    -- A decoder that is cached for an ABI was cached before, and the body of the ABI is the one that it was.
    abbrev pub Stays : AbiRegistry → AbiRegistry → Type 0
    Stays r s =
        (id key : String) (d : Decoder)
        → get (id, key) s.decoders ≡ some d
        → (get (id, key) r.decoders ≡ some d) × (body_of (get id s.abis) ≡ body_of (get id r.abis))

    -- What a refresh of a registry gives.
    abbrev pub IsRefreshed : AbiRegistry → AbiRegistry → Type 0
    IsRefreshed r s = IsWell s × Stays r s
