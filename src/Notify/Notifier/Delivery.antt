-- ===== src/Notify/Notifier/Delivery.antt =====
-- core/notifier/notifier.py: which deliveries a dispatch makes.
mod Tests
use chain_indexer.Base.{
  ℕ, suc, String, ◌≡◌, refl, sym, ap, ◌∙◌, Bool, true, false, Option, none, some, List, [], ◌∷◌,
  ◌++◌, map, string_comparable, filter, filter-append, if◌then◌else◌, Option-cases, inl, inr, arith,
}
use mathlib.Core.List.{map-append}
use chain_indexer.Base.Dict.{Dict, get}
use chain_indexer.Config.Snapshot.{SnapshotSubscription, SnapshotChannel}
use chain_indexer.Parse.Event.{Event}
use chain_indexer.Parse.Value.{Fields}
use chain_indexer.Notify.Payload.{build_payload}
use chain_indexer.Notify.Notifier.{Task, Callback, Sent, tasks_for, tasks, send_one, dispatch}

-- All pairs of a subscription and a channel of the hits, in order.
abbrev pub pairs_for : String → List SnapshotChannel → List (String × String)
pairs_for sub_id [] = []
pairs_for sub_id (cfg ∷ cfgs) = (sub_id, cfg.id) ∷ pairs_for sub_id cfgs

abbrev pub pairs : List (SnapshotSubscription × List SnapshotChannel) → List (String × String)
pairs [] = []
pairs ((sub, chans) ∷ hits) = pairs_for sub.id chans ++ pairs hits

abbrev pub pair_of : Callback → String × String
pair_of c = (c.for_subscription, c.for_channel)

module _ {ℓ} {C : Type ℓ} (send : C → Fields → Sent) (stamp : ℕ → ℕ × String) (m : Dict String C)
    (event : Event) (replay : Bool) where
  abbrev pub is_started : String × String → Bool
  is_started p = elim (get p.1 m) [ none ↦ false | some ch ↦ true ]

  abbrev ends : List (Task C) → List (String × String)
  ends ts = map pair_of (map (send_one send event.chain_id) ts)

  ends-append : (xs ys : List (Task C)) → ends (xs ++ ys) ≡ ends xs ++ ends ys
  ends-append [] ys = refl
  ends-append (x ∷ xs) ys =
      ap (λ l. pair_of (send_one send event.chain_id x) ∷ l) (ends-append xs ys)

  ends-tasks_for :
      (payload : Fields) (sub_id : String) (chans : List SnapshotChannel)
      → ends (tasks_for m payload sub_id chans) ≡ filter is_started (pairs_for sub_id chans)
  unfolding tasks_for send_one
  ends-tasks_for payload sub_id [] = refl
  ends-tasks_for payload sub_id (cfg ∷ cfgs) =
      step (get cfg.id m) refl (ends-tasks_for payload sub_id cfgs)
    where
      step :
          (o : Option C)
          → get cfg.id m ≡ o
          → ends (tasks_for m payload sub_id cfgs) ≡ filter is_started (pairs_for sub_id cfgs)
          → ends (tasks_for m payload sub_id (cfg ∷ cfgs))
            ≡ filter is_started (pairs_for sub_id (cfg ∷ cfgs))
      step none e ih =
          let off : is_started (sub_id, cfg.id) ≡ false = rw (e, is_started) refl in
          rw (e, tasks_for, off) ih
      step (some ch) e ih =
          let on : is_started (sub_id, cfg.id) ≡ true = rw (e, is_started) refl in
          rw (e, tasks_for, on) (ap (λ l. (sub_id, cfg.id) ∷ l) ih)

  ends-tasks :
      (n : ℕ) (hits : List (SnapshotSubscription × List SnapshotChannel))
      → ends (tasks stamp n m event replay hits) ≡ filter is_started (pairs hits)
  unfolding tasks
  ends-tasks n [] = refl
  ends-tasks n ((sub, chans) ∷ hits) =
      let payload = build_payload (stamp n).0 (stamp n).1 event sub replay in
      ends-append (tasks_for m payload sub.id chans) (tasks stamp (suc n) m event replay hits)
      ∙ ap (λ l. l ++ ends (tasks stamp (suc n) m event replay hits))
          (ends-tasks_for payload sub.id chans)
      ∙ ap (λ l. filter is_started (pairs_for sub.id chans) ++ l) (ends-tasks (suc n) hits)
      ∙ sym (filter-append is_started (pairs_for sub.id chans) (pairs hits))

  -- A dispatch ends in one callback for each pair of a subscription that was hit and a channel of it that
  -- is started, in the order of the hits, whatever the sends do; a channel that is not started takes part
  -- in none.
  pub dispatch-pairs :
      (hits : List (SnapshotSubscription × List SnapshotChannel))
      → map pair_of (dispatch send stamp m event replay hits) ≡ filter is_started (pairs hits)
  unfolding dispatch
  dispatch-pairs hits = ends-tasks 0 hits
