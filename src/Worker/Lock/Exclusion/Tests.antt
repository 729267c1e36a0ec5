-- ===== src/Worker/Lock/Exclusion/Tests.antt =====
-- A worker that has just taken the lock.
use chain_indexer.Base.{◌+◌, ◌≡◌, refl, String, some, arith}
use chain_indexer.Worker.Lock.{
  Entry, System, holding, live, lock_ttl, acquire_set, move, acquires, initial, Reach, begins,
  moves,
}
use chain_indexer.Worker.Lock.Exclusion.{waits, Reach-excludes, acquire_set-free}

abbrev first : String
first = "w1"

abbrev taken : System
taken = move (acquires "w1") initial

taken-Reach : Reach taken
taken-Reach = moves initial (acquires "w1") begins refl refl

Reach-excludes_example :
    (first ≡ first) × ((e : Entry) × (live taken ≡ some e) × (e.holder ≡ first))
unfolding move acquire_set
Reach-excludes_example = Reach-excludes taken first first taken-Reach (omega arith) (omega arith)

acquire_set-free_example :
    ((acquire_set "w2" (waits lock_ttl taken)).pc "w2" ≡ holding)
    × ((acquire_set "w2" (waits lock_ttl taken)).key
        ≡ some (record { holder = "w2"; expires_at = taken.now + lock_ttl + lock_ttl }))
acquire_set-free_example = acquire_set-free taken "w2" taken-Reach
