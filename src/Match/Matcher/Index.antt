-- ===== src/Match/Matcher/Index.antt =====
-- core/matcher/matcher.py: the indexed matcher, and a scan of all subscriptions.
use mathlib.Core.Option
use mathlib.Core.List.{append_assoc, append-nil}
use chain_indexer.Base.{
  String, ◌≡◌, refl, sym, ap, subst, ◌∙◌, Bool, true, false, ◌&&◌, Option, none, some, List, [],
  ◌∷◌, ◌++◌, map, arith, ◌==◌, string_comparable, if◌then◌else◌, filter, Bool-cases, inl, inr, ==→≡,
}
use chain_indexer.Base.Dict.{Dict, get, get-put_self, get-put_ne}
use chain_indexer.Config.Snapshot.{
  SnapshotSubscription, SnapshotChannel, ConfigSnapshot, kind_comparable,
}
use chain_indexer.Parse.Event.{Event}
use chain_indexer.Match.Matcher.{
  Key, key_comparable, key_of, add_subscription, index, channel_dict, create, matches, channels_of,
  match_each, match,
}

-- The candidates under a key.
abbrev under : Key → Dict Key (List SnapshotSubscription) → List SnapshotSubscription
under k m = Option.get_or (get k m) []

abbrev pub belongs : Key → SnapshotSubscription → Bool
belongs k s = s.enabled && key_of s == k

under-add :
    (k : Key) (s : SnapshotSubscription) (m : Dict Key (List SnapshotSubscription))
    → under k (add_subscription s m) ≡ under k m ++ (if key_of s == k then s ∷ [] else [])
unfolding add_subscription
under-add k s m = elim (Bool-cases (key_of s == k)) [
  | inl b ↦
      let same : key_of s ≡ k = ==→≡ b in
      rw b (
        subst (λ j. under j (add_subscription s m) ≡ under j m ++ s ∷ []) same
          (ap (λ o. Option.get_or o []) (get-put_self (key_of s) (under (key_of s) m ++ s ∷ []) m)))
  | inr b ↦ rw b (
      ap (λ o. Option.get_or o []) (get-put_ne (key_of s) k (under (key_of s) m ++ s ∷ []) m b)
      ∙ sym (append-nil (under k m)))
]

under-index :
    (k : Key) (ss : List SnapshotSubscription) (m : Dict Key (List SnapshotSubscription))
    → under k (index ss m) ≡ under k m ++ filter (belongs k) ss
unfolding index
under-index k [] m = sym (append-nil (under k m))
under-index k (s ∷ ss) m = ground (
  arith,
  under-index k ss (add_subscription s m),
  under-index k ss m,
  under-add k s m,
  append_assoc (under k m) (s ∷ []) (filter (belongs k) ss),
  append-nil (under k m),
)

abbrev pub passes : Option Bool → Bool
passes (some true) = true
passes r = false

abbrev pub key_for : Event → Key
key_for event = record { chain_id = event.chain_id; kind = event.kind }

-- Does the subscription want the event?
abbrev pub wants : Event → SnapshotSubscription → Bool
wants event sub = belongs (key_for event) sub && passes (matches sub event)

abbrev pub hit :
    Dict String SnapshotChannel → SnapshotSubscription → SnapshotSubscription × List SnapshotChannel
hit m sub = (sub, channels_of m sub.channel_ids)

module _ (m : Dict String SnapshotChannel) (event : Event) where
  step :
      (s : SnapshotSubscription) (fs ws : List SnapshotSubscription) (b : Bool) (r : Option Bool)
      → matches s event ≡ r
      → match_each m event fs ≡ map (hit m) ws
      → match_each m event (if b then s ∷ fs else fs)
        ≡ map (hit m) (if b && passes r then s ∷ ws else ws)
  unfolding match_each
  step s fs ws false r e ih = ih
  step s fs ws true none e ih = rw (e, match_each) ih
  step s fs ws true (some false) e ih = rw (e, match_each) ih
  step s fs ws true (some true) e ih = rw (e, match_each) (ap (λ l. hit m s ∷ l) ih)

  match_each-filter :
      (ss : List SnapshotSubscription)
      → match_each m event (filter (belongs (key_for event)) ss)
        ≡ map (hit m) (filter (wants event) ss)
  match_each-filter [] = unfold match_each in refl
  match_each-filter (s ∷ ss) =
      step s (filter (belongs (key_for event)) ss) (filter (wants event) ss)
        (belongs (key_for event) s) (matches s event) refl (match_each-filter ss)

-- Matching an event on the indexed matcher gives, in the order of the snapshot, each subscription that
-- is enabled, is for the event's chain and kind and whose checks let the event pass without an
-- exception, with its channels: what a scan of all subscriptions gives.
pub match-create :
    (snapshot : ConfigSnapshot) (event : Event)
    → match (create snapshot) event
      ≡ map (hit (create snapshot).channels) (filter (wants event) snapshot.subscriptions)
unfolding match create get
match-create snapshot event =
    ap (match_each (channel_dict snapshot.channels []) event) (
      under-index (record { chain_id = event.chain_id; kind = event.kind }) snapshot.subscriptions
        [])
    ∙ match_each-filter (channel_dict snapshot.channels []) event snapshot.subscriptions
