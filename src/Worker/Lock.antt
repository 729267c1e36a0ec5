-- ===== src/Worker/Lock.antt =====
-- core/worker/chain_lock.py: the lock of a chain, a key of Redis with the worker that holds it and the time
-- at which it expires. Each request to Redis is one move of one worker, so that the moves of several workers
-- interleave. Beside the state of the program, `lease` notes until when a worker may count on the key: what
-- its last write, or the entry that it found to be its own, promised. The clock counts seconds.
pub mod Exclusion
use chain_indexer.Base.{
  ℕ, ◌+◌, ◌≡◌, String, Bool, true, false, Option, none, some, List, [], ◌∷◌, ltb, ◌==◌, ◌||◌,
  string_comparable, if◌then◌else◌,
}

abbrev pub lock_ttl : ℕ
lock_ttl = 30

pub record Entry : Type 0 where
  pub holder : String
  pub expires_at : ℕ

-- Where a worker stands between two requests: `asking` after its SET NX failed, `renewing` and `releasing`
-- after a GET showed its own id, `lost` after the loop of renewals ended.
pub data Pc : Type 0 where
  idle asking holding renewing releasing lost : Pc

pub record System : Type 0 where
  pub now : ℕ
  pub key : Option Entry
  pub pc : String → Pc
  pub lease : String → ℕ

-- The entry that Redis answers with: one that has not expired.
abbrev pub live : System → Option Entry
live s = elim s.key [ none ↦ none | some e ↦ if ltb s.now e.expires_at then some e else none ]

abbrev pub set_at {ℓ} : {A : Type ℓ} → String → A → (String → A) → String → A
set_at w a f v = if w == v then a else f v

abbrev pub go : String → Pc → System → System
go w p s = record s { pc = set_at w p s.pc }

-- `set(key, worker_id, nx=True, ex=30)`
unfoldable pub acquire_set : String → System → System
acquire_set w s = elim (live s) [
  | some e ↦ go w asking s
  | none ↦ go w holding (record s {
    key = some (record { holder = w; expires_at = s.now + lock_ttl });
    lease = set_at w (s.now + lock_ttl) s.lease;
  })
]

-- The GET of `acquire`: the lock may be the worker's own.
unfoldable pub acquire_get : String → System → System
acquire_get w s = elim (live s) [
  | none ↦ go w idle s
  | some e ↦
      if e.holder == w
      then go w holding (record s { lease = set_at w e.expires_at s.lease })
      else go w idle s
]

-- The GET of a renewal, which ends the loop if the lock is another's or gone.
unfoldable pub renew_get : String → System → System
renew_get w s = elim (live s) [
  | none ↦ go w lost s
  | some e ↦ if e.holder == w then go w renewing s else go w lost s
]

-- `expire(key, 30)`, whoever holds the key by now.
unfoldable pub renew_expire : String → System → System
renew_expire w s = elim (live s) [
  | none ↦ go w holding s
  | some e ↦ go w holding (record s {
    key = some (record e { expires_at = s.now + lock_ttl });
    lease = set_at w (s.now + lock_ttl) s.lease;
  })
]

-- The GET of `release`.
unfoldable pub release_get : String → System → System
release_get w s = elim (live s) [
  | none ↦ go w idle s
  | some e ↦ if e.holder == w then go w releasing s else go w idle s
]

-- `delete(key)`, whoever holds the key by now.
unfoldable pub release_delete : String → System → System
release_delete w s = go w idle (record s { key = none; lease = set_at w 0 s.lease })

-- A request of a renewal that `fails` raises: the loop goes on.
pub data Move : Type 0 where
  tick : Move
  acquires asks renews extends fails releases deletes : String → Move

-- A release cancels the renewals wherever they stand.
abbrev pub may_release : Pc → Bool
may_release holding = true
may_release renewing = true
may_release lost = true
may_release p = false

abbrev pub is_at : Pc → Pc → Bool
is_at idle idle = true
is_at asking asking = true
is_at holding holding = true
is_at renewing renewing = true
is_at releasing releasing = true
is_at p q = false

-- The worker of a move stands where it makes it.
abbrev pub is_enabled : Move → System → Bool
is_enabled tick s = true
is_enabled (acquires w) s = is_at idle (s.pc w)
is_enabled (asks w) s = is_at asking (s.pc w)
is_enabled (renews w) s = is_at holding (s.pc w)
is_enabled (extends w) s = is_at renewing (s.pc w)
is_enabled (fails w) s = is_at renewing (s.pc w) || is_at holding (s.pc w)
is_enabled (releases w) s = may_release (s.pc w)
is_enabled (deletes w) s = is_at releasing (s.pc w)

-- A write behind a GET comes in time if the worker's lease has not run out between the two.
abbrev pub is_timely : Move → System → Bool
is_timely (extends w) s = ltb s.now (s.lease w)
is_timely (deletes w) s = ltb s.now (s.lease w)
is_timely m s = true

unfoldable pub move : Move → System → System
unfolding acquire_set acquire_get renew_get renew_expire release_get release_delete
move tick s = record s { now = s.now + 1 }
move (acquires w) s = acquire_set w s
move (asks w) s = acquire_get w s
move (renews w) s = renew_get w s
move (extends w) s = renew_expire w s
move (fails w) s = go w holding s
move (releases w) s = release_get w s
move (deletes w) s = release_delete w s

abbrev pub initial : System
initial = record { now = 0; key = none; pc = λ w. idle; lease = λ w. 0 }

-- The systems that timely moves of any workers, in any order, lead to.
pub data Reach : System → Type 0 where
  begins : Reach initial
  moves :
      (s : System) (m : Move)
      → Reach s
      → is_enabled m s ≡ true
      → is_timely m s ≡ true
      → Reach (move m s)
