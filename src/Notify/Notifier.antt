-- ===== src/Notify/Notifier.antt =====
-- core/notifier/notifier.py: one task for each subscription and channel that is started, all of which run.
-- A channel's send is a parameter; the callbacks that a task makes are its result.
pub mod Delivery
use chain_indexer.Base.{
  ℕ, suc, String, Bool, Option, none, some, List, [], ◌∷◌, ◌++◌, map, string_comparable,
}
use chain_indexer.Base.Dict.{Dict, get, put}
use chain_indexer.Config.Snapshot.{SnapshotSubscription, SnapshotChannel}
use chain_indexer.Parse.Event.{Event}
use chain_indexer.Parse.Value.{Fields}
use chain_indexer.Notify.Payload.{build_payload}

pub record Task {ℓ} (C : Type ℓ) : Type ℓ where
  pub channel : C
  pub payload : Fields
  pub subscription_id : String
  pub channel_id : String

-- The end of a send: it returned, or raised after a number of attempts.
pub data Sent : Type 0 where
  success : Sent
  failure : ℕ → Sent

-- The callback of a task, `on_success` or `on_failure`, with its attempts.
pub record Callback : Type 0 where
  pub for_subscription : String
  pub for_channel : String
  pub chain_id : String
  pub payload : Fields
  pub result : Sent
  pub attempts : ℕ

abbrev attempts_of : Sent → ℕ
attempts_of success = 1
attempts_of (failure n) = n

module _ {ℓ} {C : Type ℓ} where
  -- `start`, after each channel is made.
  unfoldable pub start :
      (SnapshotChannel → C) → List SnapshotChannel → Dict String C → Dict String C
  unfolding put
  start factory [] m = m
  start factory (cfg ∷ cfgs) m = start factory cfgs (put cfg.id (factory cfg) m)

  -- The tasks of one hit; a channel that is not started is passed over.
  unfoldable pub tasks_for : Dict String C → Fields → String → List SnapshotChannel → List (Task C)
  unfolding get
  tasks_for m payload sub_id [] = []
  tasks_for m payload sub_id (cfg ∷ cfgs) = elim (get cfg.id m) [
    | none ↦ tasks_for m payload sub_id cfgs
    | some ch ↦
        record { channel = ch; payload = payload; subscription_id = sub_id; channel_id = cfg.id }
        ∷ tasks_for m payload sub_id cfgs
  ]

  -- The time and the identifier of the n-th payload are the parameter's.
  unfoldable pub tasks :
      (ℕ → ℕ × String)
      → ℕ
      → Dict String C
      → Event
      → Bool
      → List (SnapshotSubscription × List SnapshotChannel)
      → List (Task C)
  unfolding tasks_for build_payload
  tasks stamp n m event replay [] = []
  tasks stamp n m event replay ((sub, chans) ∷ hits) =
      tasks_for m (build_payload (stamp n).0 (stamp n).1 event sub replay) sub.id chans
      ++ tasks stamp (suc n) m event replay hits

  unfoldable pub send_one : (C → Fields → Sent) → String → Task C → Callback
  send_one send chain_id t =
      let sent = send t.channel t.payload in
      record {
        for_subscription = t.subscription_id;
        for_channel = t.channel_id;
        chain_id = chain_id;
        payload = t.payload;
        result = sent;
        attempts = attempts_of sent;
      }

  unfoldable pub dispatch :
      (C → Fields → Sent)
      → (ℕ → ℕ × String)
      → Dict String C
      → Event
      → Bool
      → List (SnapshotSubscription × List SnapshotChannel)
      → List Callback
  unfolding tasks send_one
  dispatch send stamp m event replay hits =
      map (send_one send event.chain_id) (tasks stamp 0 m event replay hits)
