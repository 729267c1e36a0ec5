-- ===== src/Run/Replay/Wanted.antt =====
-- apps/worker/chain_runner.py: what a replay delivers.
mod Tests
use chain_indexer.Base.{
  ℕ, zero, suc, ◌+◌, ◌-◌, min, ◌≡◌, refl, sym, subst, ap, ◌∙◌, String, Bool, true, false, Option,
  none, some, List, [], ◌∷◌, ◌++◌, map, filter, filter-append, Bool-cases, inl, inr, if◌then◌else◌,
  string_comparable,
}
use mathlib.Core.Path.{ap₂}
use mathlib.Core.List.{map-append}
use chain_indexer.Config.Snapshot.{SnapshotSubscription, SnapshotChannel, ConfigSnapshot}
use chain_indexer.Match.Matcher.{Matcher, create, match, channels_of, channel_dict}
use chain_indexer.Match.Matcher.Index.{wants, hit, match-create}
use chain_indexer.Parse.Event.{Event}
use chain_indexer.Run.Catchup.{blocks_from}
use chain_indexer.Run.Process.{Hits, with_channels, dispatches}
use chain_indexer.Run.Replay.{Request, alone, replay_blocks, replay_range}

-- The events of some blocks, in order.
abbrev pub events_of : (ℕ → List Event) → List ℕ → List Event
events_of events [] = []
events_of events (n ∷ ns) = events n ++ events_of events ns

module _ (sub : SnapshotSubscription) (channels : List SnapshotChannel) (c : SnapshotChannel)
    (cs : List SnapshotChannel)
    (bound : channels_of (create (alone sub channels)).channels sub.channel_ids ≡ c ∷ cs) where
  -- An event delivered to the channels of the subscription.
  abbrev pub delivered : Event → Event × Hits
  delivered e = (e, (sub, c ∷ cs) ∷ [])

  matched :
      (e : Event)
      → with_channels (match (create (alone sub channels)) e)
        ≡ (if wants e sub then (sub, c ∷ cs) ∷ [] else [])
  matched e = ap with_channels (match-create (alone sub channels) e) ∙ tested (wants e sub)
    where
      tested :
          (b : Bool)
          → with_channels
              (map (hit (create (alone sub channels)).channels) (if b then sub ∷ [] else []))
            ≡ (if b then (sub, c ∷ cs) ∷ [] else [])
      tested false = unfold with_channels in refl
      tested true =
          ap (λ chans. with_channels ((sub, chans) ∷ [])) bound ∙ (unfold with_channels in refl)

  dispatches-wanted :
      (es : List Event)
      → dispatches (create (alone sub channels)) es ≡ map delivered (filter (λ e. wants e sub) es)
  unfolding dispatches
  dispatches-wanted [] = refl
  dispatches-wanted (e ∷ es) = elim (Bool-cases (wants e sub)) [
    | inl b ↦
        let m : with_channels (match (create (alone sub channels)) e) ≡ (sub, c ∷ cs) ∷ [] =
          matched e ∙ ap (λ t. if t then (sub, c ∷ cs) ∷ [] else []) b in
        rw (m, dispatches) (rw b (ap (λ l. delivered e ∷ l) (dispatches-wanted es)))
    | inr b ↦
        let m : with_channels (match (create (alone sub channels)) e) ≡ [] =
          matched e ∙ ap (λ t. if t then (sub, c ∷ cs) ∷ [] else []) b in
        rw (m, dispatches) (rw b (dispatches-wanted es))
  ]

  module _ (is_stopped : ℕ → Bool) (events_at : ℕ → Option (List Event)) (events : ℕ → List Event)
      (goes_on : (n : ℕ) → is_stopped n ≡ false)
      (answered : (n : ℕ) → events_at n ≡ some (events n)) where
    replay_blocks-wanted :
        (ns : List ℕ)
        → replay_blocks is_stopped events_at (create (alone sub channels)) ns
          ≡ map delivered (filter (λ e. wants e sub) (events_of events ns))
    unfolding replay_blocks
    replay_blocks-wanted [] = refl
    replay_blocks-wanted (n ∷ ns) =
        rw (goes_on n, replay_blocks)
          (rw (answered n) (
            ap₂ (λ xs ys. xs ++ ys) (dispatches-wanted (events n)) (replay_blocks-wanted ns)
            ∙ sym (
                map-append delivered (filter (λ e. wants e sub) (events n))
                  (filter (λ e. wants e sub) (events_of events ns)))
            ∙ ap (map delivered)
                (sym (filter-append (λ e. wants e sub) (events n) (events_of events ns)))))

    -- A replay that is not stopped, of a subscription with channels and whose blocks are all answered,
    -- delivers the events of the blocks from the first that is asked for to the last that is asked for and
    -- safe, in order, that the subscription wants, each once and to its channels.
    pub replay_range-wanted :
        (from_block to_block safe : ℕ)
        → replay_range is_stopped events_at
            (record {
              subscription = sub;
              channels = channels;
              from_block = from_block;
              to_block = to_block;
            })
            (some safe)
          ≡ map delivered (
              filter
                (λ e. wants e sub)
                (events_of events (blocks_from (suc (min to_block safe) - from_block) from_block)))
    unfolding replay_range
    replay_range-wanted from_block to_block safe =
        replay_blocks-wanted (blocks_from (suc (min to_block safe) - from_block) from_block)
