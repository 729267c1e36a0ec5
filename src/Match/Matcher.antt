-- ===== src/Match/Matcher.antt =====
-- core/matcher/matcher.py: the subscriptions indexed by chain and kind, and the match of an event.
pub mod Index
mod Tests
use chain_indexer.Base.{
  ℕ, String, ◌≡◌, ◌↔◌, refl, Bool, true, false, not, ◌&&◌, ◌||◌, Option, none, some, List, [], ◌∷◌,
  ◌++◌, arith, Comparable, ◌==◌, string_comparable, if◌then◌else◌, ltb,
}
use text.Mathlib.TextEquality.{eq_iff}
use mathlib.Core.Option
use chain_indexer.Base.Dict.{Dict, get, put}
use chain_indexer.Config.Snapshot.{
  MatchKind, kind_comparable, kind_beq_iff, SnapshotSubscription, SnapshotChannel, ConfigSnapshot,
}
use chain_indexer.Parse.Event.{Event}
use chain_indexer.Match.Filters.{evaluate, norm_str}

-- The keys of the index.
pub record Key : Type 0 where
  pub chain_id : String
  pub kind : MatchKind

abbrev pub key_beq : Key → Key → Bool
key_beq j k = (j.chain_id == k.chain_id) && (j.kind == k.kind)

pub key_beq_iff : (j k : Key) → (key_beq j k ≡ true) ↔ (j ≡ k)
key_beq_iff j k = ground (arith, eq_iff j.chain_id k.chain_id, kind_beq_iff j.kind k.kind)

instance abbrev pub key_comparable : Comparable Key
key_comparable = record { same = key_beq; same_iff = key_beq_iff }

pub record Matcher : Type 0 where
  pub by_key : Dict Key (List SnapshotSubscription)
  pub channels : Dict String SnapshotChannel

abbrev pub key_of : SnapshotSubscription → Key
key_of s = record { chain_id = s.chain_id; kind = s.match_kind }

-- `setdefault(key, []).append(s)`
unfoldable pub add_subscription :
    SnapshotSubscription
    → Dict Key (List SnapshotSubscription)
    → Dict Key (List SnapshotSubscription)
add_subscription s m = put (key_of s) (Option.get_or (get (key_of s) m) [] ++ s ∷ []) m

unfoldable pub index :
    List SnapshotSubscription
    → Dict Key (List SnapshotSubscription)
    → Dict Key (List SnapshotSubscription)
unfolding add_subscription
index [] m = m
index (s ∷ ss) m = index ss (if s.enabled then add_subscription s m else m)

unfoldable pub channel_dict :
    List SnapshotChannel → Dict String SnapshotChannel → Dict String SnapshotChannel
channel_dict [] m = m
channel_dict (c ∷ cs) m = channel_dict cs (put c.id c m)

unfoldable pub create : ConfigSnapshot → Matcher
unfolding index channel_dict
create snapshot = record {
  by_key = index snapshot.subscriptions [];
  channels = channel_dict snapshot.channels [];
}

-- The checks before the argument filters.
abbrev pub started : Option ℕ → ℕ → Bool
started none n = true
started (some start) n = not (ltb n start)

abbrev pub address_matches : Option String → Option String → Bool
address_matches none contract = true
address_matches (some address) none = false
address_matches (some address) (some contract) = norm_str address == norm_str contract

abbrev pub name_matches : Option String → Option String → Bool
name_matches none name = true
name_matches (some wanted) none = false
name_matches (some wanted) (some name) = name == wanted

-- `none` is an exception of the argument filters.
unfoldable pub matches : SnapshotSubscription → Event → Option Bool
matches sub event =
    if not (started sub.start_block event.block_number)
    then some false
    else if not (address_matches sub.address event.contract)
    then some false
    else if not (name_matches sub.match_name event.name)
    then some false
    else evaluate sub.arg_filters event.args

-- `[self._channels[cid] for cid in sub.channel_ids if cid in self._channels]`
unfoldable pub channels_of : Dict String SnapshotChannel → List String → List SnapshotChannel
channels_of m [] = []
channels_of m (cid ∷ cids) = elim (get cid m) [
  | none ↦ channels_of m cids
  | some c ↦ c ∷ channels_of m cids
]

-- The loop over the candidates: an exception skips the candidate.
unfoldable pub match_each :
    Dict String SnapshotChannel
    → Event
    → List SnapshotSubscription
    → List (SnapshotSubscription × List SnapshotChannel)
unfolding channels_of
match_each m event [] = []
match_each m event (sub ∷ subs) = elim (matches sub event) [
  | some true ↦ (sub, channels_of m sub.channel_ids) ∷ match_each m event subs
  | _ ↦ match_each m event subs
]

unfoldable pub match : Matcher → Event → List (SnapshotSubscription × List SnapshotChannel)
unfolding match_each
match m event =
    match_each m.channels event
      (Option.get_or (get (record { chain_id = event.chain_id; kind = event.kind }) m.by_key) [])
