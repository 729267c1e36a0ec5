-- ===== src/Match/FilterSet.antt =====
-- core/matcher/filter_set.py: the filter of logs that a chain asks its node to apply.
pub mod Collected
pub mod Passing
use chain_indexer.Base.{
  ℕ, String, Bool, true, false, not, ◌&&◌, ◌||◌, Option, none, some, List, [], ◌∷◌, ◌==◌,
  string_comparable, if◌then◌else◌, filter, any, ltb, nat_comparable,
}
use Prim.Native.Char.{code}
use mathlib.Core.Option
use chain_indexer.Base.Text.{lower}
use chain_indexer.Config.Snapshot.{
  MatchKind, kind_comparable, native_transfer, token_transfer, event, call, SnapshotSubscription,
  ConfigSnapshot,
}
use chain_indexer.Abi.Registry.{AbiRegistry, event_topic0_for}
use chain_indexer.Parse.Erc20.{transfer_topic0}

pub record EvmLogFilterSet : Type 0 where
  pub addresses : Option (List String)
  pub topic0s : Option (List String)
  pub skip_logs : Bool

-- `topics_param`
abbrev pub topics_param : EvmLogFilterSet → Option (List (List String))
topics_param fs = elim fs.topic0s [
  | none ↦ none
  | some [] ↦ none
  | some (t ∷ ts) ↦ some ((t ∷ ts) ∷ [])
]

-- The order of texts by their code points.
unfoldable pub before : String → String → Bool
before s String.[] = false
before String.[] (String.◌∷◌ d t) = true
before (String.◌∷◌ c s) (String.◌∷◌ d t) = ltb (code c) (code d) || (code c == code d) && before s t

-- A sorted list of texts, each once, as `sorted` makes it from a set.
unfoldable pub insert : String → List String → List String
unfolding before
insert s [] = s ∷ []
insert s (t ∷ ts) = if s == t then t ∷ ts else if before s t then s ∷ t ∷ ts else t ∷ insert s ts

abbrev pub consumes_logs : MatchKind → Bool
consumes_logs native_transfer = false
consumes_logs token_transfer = true
consumes_logs event = true
consumes_logs call = false

unfoldable pub subscriptions_for_chain : ConfigSnapshot → String → List SnapshotSubscription
subscriptions_for_chain snapshot chain_id =
    filter (λ s. (s.chain_id == chain_id) && s.enabled) snapshot.subscriptions

-- `none` if one of the subscriptions has no address.
unfoldable pub collect_addresses : List SnapshotSubscription → Option (List String)
unfolding insert lower
collect_addresses [] = some []
collect_addresses (s ∷ ss) = elim s.address [
  | none ↦ none
  | some address ↦ Option.map (insert (lower address)) (collect_addresses ss)
]

-- The topic of one subscription; `none` if there is none to be had.
unfoldable pub topic0_of : Option AbiRegistry → SnapshotSubscription → Option String
unfolding event_topic0_for
topic0_of registry s =
    if s.match_kind == token_transfer then some transfer_topic0 else elim s.abi_id [
      | none ↦ none
      | some abi_id ↦ elim s.match_name [
        | none ↦ none
        | some name ↦ elim registry [ none ↦ none | some r ↦ event_topic0_for r abi_id name ]
      ]
    ]

unfoldable pub collect_topic0s :
    Option AbiRegistry → List SnapshotSubscription → Option (List String)
unfolding topic0_of insert
collect_topic0s registry [] = some []
collect_topic0s registry (s ∷ ss) = elim (topic0_of registry s) [
  | none ↦ none
  | some t0 ↦ Option.map (insert t0) (collect_topic0s registry ss)
]

abbrev pub filter_for : Option AbiRegistry → List SnapshotSubscription → EvmLogFilterSet
filter_for registry [] = record { addresses = none; topic0s = none; skip_logs = true }
filter_for registry (s ∷ ss) = record {
  addresses = collect_addresses (s ∷ ss);
  topic0s = collect_topic0s registry (s ∷ ss);
  skip_logs = false;
}

abbrev pub relevant : ConfigSnapshot → String → List SnapshotSubscription
relevant snapshot chain_id =
    filter (λ s. consumes_logs s.match_kind) (subscriptions_for_chain snapshot chain_id)

unfoldable pub build_evm_log_filter : ConfigSnapshot → String → Option AbiRegistry → EvmLogFilterSet
unfolding subscriptions_for_chain collect_addresses collect_topic0s
build_evm_log_filter snapshot chain_id registry = filter_for registry (relevant snapshot chain_id)
