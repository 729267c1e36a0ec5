-- ===== src/Notify/Notifier/Delivery/Tests.antt =====
-- A dispatch to two channels, one of which is not started and one of which fails.
use chain_indexer.Base.{ℕ, String, ◌≡◌, Bool, true, false, List, [], ◌∷◌, map, filter}
use chain_indexer.Base.Dict.{Dict}
use chain_indexer.Config.Snapshot.{SnapshotSubscription, SnapshotChannel}
use chain_indexer.Parse.Value.{Fields, end}
use chain_indexer.Notify.Notifier.{Sent, success, failure, dispatch}
use chain_indexer.Notify.Notifier.Delivery.{pair_of, pairs, is_started, dispatch-pairs}
use chain_indexer.Notify.Payload.Json.Tests.{watch, deposit}

abbrev channel : String → SnapshotChannel
channel id = record { id = id; name = id; type = "http"; config = end }

abbrev started : Dict String Bool
started = ("hook", true) ∷ ("down", false) ∷ []

abbrev send : Bool → Fields → Sent
send up payload = elim up [ true ↦ success | false ↦ failure 3 ]

abbrev stamp : ℕ → ℕ × String
stamp n = (n, "id")

abbrev hits : List (SnapshotSubscription × List SnapshotChannel)
hits = (watch, channel "hook" ∷ channel "gone" ∷ channel "down" ∷ []) ∷ []

dispatch-pairs_example :
    map pair_of (dispatch send stamp started deposit false hits)
    ≡ filter (is_started send stamp started deposit false) (pairs hits)
dispatch-pairs_example = dispatch-pairs send stamp started deposit false hits
