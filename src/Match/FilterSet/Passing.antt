-- ===== src/Match/FilterSet/Passing.antt =====
-- core/matcher/filter_set.py: what the filter of a chain lets through for a subscription to ERC-20
-- transfers.
mod Tests
use chain_indexer.Base.{
  ℕ, String, ◌≡◌, refl, sym, ap, subst, ◌∙◌, Bool, true, false, not, ◌&&◌, ◌||◌, Option, none, some,
  List, [], ◌∷◌, ◌++◌, ◌==◌, string_comparable, if◌then◌else◌, filter, any, ltb, Among, here, there,
  filter-Among, arith, Bool-cases, Option-cases, inl, inr, ==→≡, ==_refl, and_parts,
}
use mathlib.Core.Option
use text.Mathlib.TextEquality.{eq_iff}
use chain_indexer.Base.Int.{ℤ}
use chain_indexer.Base.Text
use chain_indexer.Base.Text.{lower, lower_idem, starts_with, chars, remove_prefix}
use chain_indexer.Parse.Hex.{parse_hex}
use chain_indexer.Base.Dict.{Dict}
use chain_indexer.Chain.Types.{BlockHeader, Log}
use chain_indexer.Config.Snapshot.{
  MatchKind, kind_comparable, token_transfer, SnapshotSubscription, ConfigSnapshot,
}
use chain_indexer.Abi.Registry.{AbiRegistry}
use chain_indexer.Parse.Event.{Event}
use chain_indexer.Parse.Erc20.{transfer_topic0, try_decode, decode_topics, event_of}
use chain_indexer.Match.Filters.{norm_str, evaluate}
use chain_indexer.Match.Matcher.{
  key_comparable, key_of, started, name_matches, address_matches, matches,
}
use chain_indexer.Match.Matcher.Index.{wants, passes, key_for, belongs}
use chain_indexer.Match.FilterSet.{
  EvmLogFilterSet, topics_param, insert, collect_addresses, topic0_of, collect_topic0s, relevant,
  filter_for, subscriptions_for_chain, build_evm_log_filter, consumes_logs,
}
use chain_indexer.Match.FilterSet.Collected.{
  listed, gather, listed-gather, gather-some, lower_address, collect_addresses-gather,
  collect_topic0s-gather,
}

abbrev pub first_listed : List String → List (List String) → Bool
first_listed topics [] = true
first_listed [] (ts ∷ tss) = false
first_listed (topic0 ∷ topics) (ts ∷ tss) = listed topic0 ts

-- Does `eth_getLogs` give a log that the filter is asked for? An address list or a topic list that is
-- left out lets every log pass.
abbrev pub gives : EvmLogFilterSet → Log → Bool
gives fs lg =
    not fs.skip_logs
    && elim fs.addresses [ none ↦ true | some as' ↦ listed lg.address as' ]
    && elim (topics_param fs) [ none ↦ true | some tss ↦ first_listed lg.topics tss ]

lower-norm_str : (s : String) → lower (norm_str s) ≡ lower s
lower-norm_str s = ground (arith, lower_idem s)

-- Two addresses that the matcher takes for the same differ in case only.
address_matches-lower :
    (a c : String) → address_matches (some a) (some (lower c)) ≡ true → lower a ≡ lower c
address_matches-lower a c h =
    sym (lower-norm_str a) ∙ ap lower (==→≡ h) ∙ lower-norm_str (lower c) ∙ lower_idem c

-- The lists of topics in which the first topic of a log is found.
abbrev FindsTransfer : List String → Type 0
FindsTransfer topics =
    (tss : List String) → listed transfer_topic0 tss ≡ true → first_listed topics (tss ∷ []) ≡ true

-- What an event of a log says of it.
abbrev Describes : String → Log → List String → Event → Type 0
Describes chain_id lg topics e =
    (e.chain_id ≡ chain_id)
    × (e.kind ≡ token_transfer)
    × (e.contract ≡ some (lower lg.address))
    × FindsTransfer topics

finds :
    (topic0 : String) (topics : List String)
    → lower topic0 ≡ transfer_topic0
    → FindsTransfer (topic0 ∷ topics)
finds topic0 topics h tss l =
    let same : lower transfer_topic0 ≡ lower topic0 = sym (ap lower h) ∙ lower_idem topic0 in
    subst (λ u. any (λ t. lower t == u) tss ≡ true) same l

decoded :
    (chain_id : String) (h : BlockHeader) (indexes : Dict String ℕ) (lg : Log)
    (topics : List String) (e : Event)
    → decode_topics chain_id h indexes lg topics ≡ some e
    → Describes chain_id lg topics e
unfolding decode_topics event_of
decoded chain_id h indexes lg [] e d = absurd (cc d)
decoded chain_id h indexes lg (t0 ∷ []) e d = absurd (cc d)
decoded chain_id h indexes lg (t0 ∷ t1 ∷ []) e d = absurd (cc d)
decoded chain_id h indexes lg (t0 ∷ t1 ∷ t2 ∷ t3 ∷ ts) e d = absurd (cc d)
decoded chain_id h indexes lg (t0 ∷ t1 ∷ t2 ∷ []) e d =
    let data_hex = remove_prefix lg.payload "0x" in
    go (lower t0 == transfer_topic0) (ltb (Text.length data_hex) 64)
      (parse_hex (chars (Text.take 64 data_hex))) refl d
  where
    go :
        (a b : Bool) (o : Option ℤ)
        → (lower t0 == transfer_topic0) ≡ a
        → (if not a
            then none
            else if b
            then none
            else elim o [ none ↦ none | some v ↦ some (event_of chain_id h indexes lg t1 t2 v) ])
          ≡ some e
        → Describes chain_id lg (t0 ∷ t1 ∷ t2 ∷ []) e
    go false b o k d = absurd (cc d)
    go true true o k d = absurd (cc d)
    go true false none k d = absurd (cc d)
    go true false (some v) k d =
        let same : event_of chain_id h indexes lg t1 t2 v ≡ e = cc d in
        subst (Describes chain_id lg (t0 ∷ t1 ∷ t2 ∷ [])) same
          (refl, refl, refl, finds t0 (t1 ∷ t2 ∷ []) (==→≡ k))

matches-address :
    (sub : SnapshotSubscription) (e : Event) (c : String)
    → passes (matches sub e) ≡ true
    → e.contract ≡ some c
    → address_matches sub.address (some c) ≡ true
unfolding matches
matches-address sub e c h k =
    subst (λ o. address_matches sub.address o ≡ true) k
      (second (started sub.start_block e.block_number) (address_matches sub.address e.contract)
        (name_matches sub.match_name e.name) (evaluate sub.arg_filters e.args) h)
  where
    second :
        (a b c : Bool) (r : Option Bool)
        → passes (
            if not a
            then some false
            else if not b
            then some false
            else if not c
            then some false
            else r)
          ≡ true
        → b ≡ true
    second true true c r h = refl
    second true false c r h = absurd (cc h)
    second false b c r h = absurd (cc h)

module _ (registry : Option AbiRegistry) (lg : Log) (sub : SnapshotSubscription)
    (at_address : address_matches sub.address (some (lower lg.address)) ≡ true)
    (transfers : sub.match_kind ≡ token_transfer) (finds_topic : FindsTransfer lg.topics) where
  addresses_pass :
      (ss : List SnapshotSubscription) (o : Option (List String))
      → Among sub ss
      → collect_addresses ss ≡ o
      → (elim o [ none ↦ true | some ts ↦ listed lg.address ts ]) ≡ true
  addresses_pass ss none m c = refl
  addresses_pass ss (some ts) m c =
      let g : gather lower_address ss ≡ some ts = sym (collect_addresses-gather ss) ∙ c in
      let (k, e) = gather-some lower_address sub ss ts m g in go sub.address refl e g
    where
      go :
          (o : Option String)
          → sub.address ≡ o
          → {k : String} → Option.map lower o ≡ some k
          → gather lower_address ss ≡ some ts
          → listed lg.address ts ≡ true
      go none a e g = absurd (cc e)
      go (some b) a e g =
          let near : address_matches (some b) (some (lower lg.address)) ≡ true =
            subst (λ o. address_matches o (some (lower lg.address)) ≡ true) a at_address in
          listed-gather lower_address sub (lower b) lg.address ss ts m (ap (Option.map lower) a)
            (lower_idem b ∙ address_matches-lower b lg.address near) g

  topics_pass :
      (ss : List SnapshotSubscription) (o : Option (List String)) (addresses : Option (List String))
      → Among sub ss
      → collect_topic0s registry ss ≡ o
      → (elim (topics_param (record { addresses = addresses; topic0s = o; skip_logs = false })) [
        | none ↦ true
        | some tss ↦ first_listed lg.topics tss
      ])
        ≡ true
  unfolding topic0_of
  topics_pass ss none addresses m c = refl
  topics_pass ss (some []) addresses m c = refl
  topics_pass ss (some (t ∷ ts)) addresses m c = finds_topic (t ∷ ts) (
      listed-gather (topic0_of registry) sub transfer_topic0 transfer_topic0 ss (t ∷ ts) m
        (rw (transfers, topic0_of) refl) refl (sym (collect_topic0s-gather registry ss) ∙ c))

  filter_for-gives :
      (ss : List SnapshotSubscription) → Among sub ss → gives (filter_for registry ss) lg ≡ true
  filter_for-gives [] m = elim m [ ]
  filter_for-gives (s ∷ ss) m =
      rw (addresses_pass (s ∷ ss) (collect_addresses (s ∷ ss)) m refl) (
        topics_pass (s ∷ ss) (collect_topic0s registry (s ∷ ss)) (collect_addresses (s ∷ ss)) m
          refl)

module _ (snapshot : ConfigSnapshot) (registry : Option AbiRegistry) (chain_id : String) where
  -- The filter of a chain, as a node applies it, gives every log that the ERC-20 parser turns into an
  -- event that some subscription wants, whatever the other subscriptions are.
  pub build_evm_log_filter-gives :
      (h : BlockHeader) (indexes : Dict String ℕ) (lg : Log) (e : Event)
      (sub : SnapshotSubscription)
      → try_decode chain_id h indexes lg ≡ some e
      → Among sub snapshot.subscriptions
      → wants e sub ≡ true
      → gives (build_evm_log_filter snapshot chain_id registry) lg ≡ true
  unfolding build_evm_log_filter try_decode subscriptions_for_chain
  build_evm_log_filter-gives h indexes lg e sub d m w =
      let (c, k, a, f) = decoded chain_id h indexes lg lg.topics e d in
      let (bel, pas) = and_parts (belongs (key_for e) sub) (passes (matches sub e)) w in
      let (on, key) = and_parts sub.enabled (key_of sub == key_for e) bel in
      let same : key_of sub ≡ key_for e = ==→≡ key in
      let chain : sub.chain_id ≡ chain_id = ap (λ j. j.chain_id) same ∙ c in
      let kind : sub.match_kind ≡ token_transfer = ap (λ j. j.kind) same ∙ k in
      let enabled : ((sub.chain_id == chain_id) && sub.enabled) ≡ true =
        ground (arith, chain, on, eq_iff sub.chain_id chain_id) in
      let listening : consumes_logs sub.match_kind ≡ true = rw kind refl in
      let near = matches-address sub e (lower lg.address) pas a in
      filter_for-gives registry lg sub near kind f (relevant snapshot chain_id) (
        filter-Among (λ s. consumes_logs s.match_kind) sub
          (subscriptions_for_chain snapshot chain_id)
          (filter-Among (λ s. (s.chain_id == chain_id) && s.enabled) sub snapshot.subscriptions m
            enabled)
          listening)
