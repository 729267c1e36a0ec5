-- ===== src/Match/FilterSet/Collected.antt =====
-- core/matcher/filter_set.py: what the lists of addresses and topics of a chain hold.
use chain_indexer.Base.{
  String, ◌≡◌, refl, sym, ap, subst, Bool, true, ◌||◌, Option, none, some, List, [], ◌∷◌, ◌==◌,
  string_comparable, any, Among, here, there, arith, Bool-cases, inl, inr, ==→≡, ==_refl,
}
use mathlib.Core.Option
use chain_indexer.Base.Text.{lower}
use chain_indexer.Config.Snapshot.{kind_comparable, SnapshotSubscription}
use chain_indexer.Abi.Registry.{AbiRegistry}
use chain_indexer.Match.Matcher.{key_comparable}
use chain_indexer.Match.FilterSet.{insert, collect_addresses, topic0_of, collect_topic0s}

-- Is a text in a list, in any case? A node compares hexadecimal texts so.
abbrev pub listed : String → List String → Bool
listed s ts = any (λ t. lower t == lower s) ts

any-insert :
    (p : String → Bool) (s : String) (ts : List String) → any p (insert s ts) ≡ (p s || any p ts)
unfolding insert
any-insert p s [] = refl
any-insert p s (t ∷ ts) = elim (Bool-cases (s == t)) [
  | inl b ↦ let same : p s ≡ p t = ap p (==→≡ b) in rw (b, insert) (ground (arith, same))
  | inr b ↦ rw (b, insert) (ground (arith, any-insert p s ts))
]

listed-map :
    (o : Option (List String)) (t s : String) (ts : List String)
    → Option.map (insert t) o ≡ some ts
    → (us : List String) × (o ≡ some us) × (listed s ts ≡ (lower t == lower s || listed s us))
listed-map none t s ts e = absurd (cc e)
listed-map (some us) t s ts e =
    let same : insert t us ≡ ts = cc e in
    (
      us,
      refl,
      subst (λ l. listed s l ≡ (lower t == lower s || listed s us)) same
          (any-insert (λ u. lower u == lower s) t us),
    )

-- What both collections do, by the text that they collect from one subscription.
unfoldable pub gather :
    (SnapshotSubscription → Option String) → List SnapshotSubscription → Option (List String)
gather key [] = some []
gather key (s ∷ ss) = elim (key s) [ none ↦ none | some k ↦ Option.map (insert k) (gather key ss) ]

module _ (key : SnapshotSubscription → Option String) (sub : SnapshotSubscription)
    (k s : String) where
  gather-cons :
      (x : SnapshotSubscription) (ss : List SnapshotSubscription) (ts : List String)
      (o : Option String)
      → key x ≡ o
      → gather key (x ∷ ss) ≡ some ts
      → (t : String) × (us : List String) × (key x ≡ some t)
        × (gather key ss ≡ some us)
        × (listed s ts ≡ (lower t == lower s || listed s us))
  unfolding gather
  gather-cons x ss ts none e c = let f = rw (e, gather) at c in absurd (cc f)
  gather-cons x ss ts (some t) e c =
      let f : Option.map (insert t) (gather key ss) ≡ some ts = rw (e, gather) at c in
      let (us, g, h) = listed-map (gather key ss) t s ts f in (t, us, e, g, h)

  -- The text of a subscription among those collected is found.
  pub listed-gather :
      (ss : List SnapshotSubscription) (ts : List String)
      → Among sub ss
      → key sub ≡ some k
      → lower k ≡ lower s
      → gather key ss ≡ some ts
      → listed s ts ≡ true
  listed-gather [] ts m e l c = elim m [ ]
  listed-gather (x ∷ ss) ts here e l c =
      let (t, us, f, g, h) = gather-cons x ss ts (key x) refl c in
      let same : t ≡ k = cc (e, f) in
      let found : (lower t == lower s) ≡ true =
        subst (λ u. (lower u == lower s) ≡ true) (sym same)
          (subst (λ u. (lower k == u) ≡ true) l (==_refl (lower k))) in
      ground (arith, h, found)
  listed-gather (x ∷ ss) ts (there m) e l c =
      let (t, us, f, g, h) = gather-cons x ss ts (key x) refl c in
      let found = listed-gather ss us m e l g in ground (arith, h, found)

pub gather-some :
    (key : SnapshotSubscription → Option String) (sub : SnapshotSubscription)
    (ss : List SnapshotSubscription) (ts : List String)
    → Among sub ss
    → gather key ss ≡ some ts
    → (k : String) × (key sub ≡ some k)
gather-some key sub [] ts m c = elim m [ ]
gather-some key sub (x ∷ ss) ts here c =
    let (t, us, f, g, h) = gather-cons key sub "" "" x ss ts (key x) refl c in (t, f)
gather-some key sub (x ∷ ss) ts (there m) c =
    let (t, us, f, g, h) = gather-cons key sub "" "" x ss ts (key x) refl c in
    gather-some key sub ss us m g

abbrev pub lower_address : SnapshotSubscription → Option String
lower_address s = Option.map lower s.address

pub collect_addresses-gather :
    (ss : List SnapshotSubscription) → collect_addresses ss ≡ gather lower_address ss
unfolding collect_addresses gather
collect_addresses-gather [] = refl
collect_addresses-gather (s ∷ ss) = ground (arith, collect_addresses-gather ss)

pub collect_topic0s-gather :
    (registry : Option AbiRegistry) (ss : List SnapshotSubscription)
    → collect_topic0s registry ss ≡ gather (topic0_of registry) ss
unfolding collect_topic0s gather
collect_topic0s-gather registry [] = refl
collect_topic0s-gather registry (s ∷ ss) = ground (arith, collect_topic0s-gather registry ss)
