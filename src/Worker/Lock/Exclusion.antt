-- ===== src/Worker/Lock/Exclusion.antt =====
-- core/worker/chain_lock.py: who may count on the lock of a chain, and when it becomes free.
mod Tests
use chain_indexer.Base.{
  ℕ, zero, suc, ◌+◌, ◌≤◌, ◌<◌, ◌≡◌, ◌≢◌, refl, sym, subst, ap, ◌∙◌, String, Bool, true, false,
  Option, none, some, arith, ltb, ◌==◌, string_comparable, ==→≡, ==_refl, Bool-cases, Option-cases,
  inl, inr, if◌then◌else◌,
}
use chain_indexer.Worker.Lock.{
  Entry, System, Pc, idle, asking, holding, renewing, releasing, lost, live, set_at, go, lock_ttl,
  acquire_set, acquire_get, renew_get, renew_expire, release_get, release_delete, Move, tick,
  acquires, asks, renews, extends, fails, releases, deletes, is_timely, is_enabled, move, initial,
  Reach, begins, moves,
}

-- The key is the worker's, until its lease ends at least.
pub record IsBacked (s : System) (w : String) : Type 0 where
  pub entry : Entry
  pub stored : s.key ≡ some entry
  pub own : entry.holder ≡ w
  pub long : s.lease w ≤ entry.expires_at

pub record IsSound (s : System) : Type 0 where
  pub backed : (w : String) → s.now < s.lease w → IsBacked s w
  pub capped : (e : Entry) → s.key ≡ some e → e.expires_at ≤ s.now + lock_ttl

-- Two workers with a lease are the same.
sole : (s : System) (v w : String) → IsBacked s v → IsBacked s w → v ≡ w
sole s v w a b =
    let same : a.entry ≡ b.entry = some_inj (sym a.stored ∙ b.stored) in
    sym a.own ∙ ap (λ e. e.holder) same ∙ b.own
  where
    some_inj : {x y : Entry} → some x ≡ some y → x ≡ y
    some_inj e = cc e

-- A lease that has not ended stands on an entry that has not expired.
live-backed :
    (s : System) (w : String) (b : IsBacked s w) → s.now < s.lease w → live s ≡ some b.entry
live-backed s w b h =
    let long = b.long in
    let alive : ltb s.now b.entry.expires_at ≡ true = ground arith in
    subst
      (λ o.
        (elim o [ none ↦ none | some e ↦ if ltb s.now e.expires_at then some e else none ])
        ≡ some b.entry)
      (sym b.stored) (rw alive refl)

live-stored : (s : System) (e : Entry) → live s ≡ some e → s.key ≡ some e
live-stored s e h = from s.key h
  where
    tested : (b : Bool) (d : Entry) → (if b then some d else none) ≡ some e → some d ≡ some e
    tested true d h = h
    tested false d h = absurd (cc h)

    from :
        (o : Option Entry)
        → (elim o [ none ↦ none | some d ↦ if ltb s.now d.expires_at then some d else none ])
          ≡ some e
        → o ≡ some e
    from none h = absurd (cc h)
    from (some d) h = tested (ltb s.now d.expires_at) d h

-- No worker has a lease while the key is free.
no_lease : (s : System) (w : String) → IsSound s → live s ≡ none → s.now < s.lease w → ⊥
no_lease s w h n l = cc (sym (live-backed s w (h.backed w l) l) ∙ n)

-- What moves change neither key nor leases keep.
go-IsSound : (w : String) (p : Pc) (s : System) → IsSound s → IsSound (go w p s)
go-IsSound w p s h = record {
  backed = λ v l.
      let b = h.backed v l in
      record { entry = b.entry; stored = b.stored; own = b.own; long = b.long };
  capped = h.capped;
}

tick-IsSound : (s : System) → IsSound s → IsSound (record s { now = s.now + 1 })
tick-IsSound s h = record {
  backed = λ v l.
      let b = h.backed v (omega arith) in
      record { entry = b.entry; stored = b.stored; own = b.own; long = b.long };
  capped = λ e k. let c = h.capped e k in omega arith;
}

-- The key given to a worker with a new lease, while no other worker has one.
granted-IsSound :
    (w : String) (e : Entry) (s : System)
    → IsSound s
    → e.holder ≡ w
    → e.expires_at ≤ s.now + lock_ttl
    → ((v : String) → s.now < s.lease v → w ≡ v)
    → IsSound (record s { key = some e; lease = set_at w e.expires_at s.lease })
granted-IsSound w e s h own short alone = record {
  backed = λ v l. backed_by v (w == v) refl l;
  capped =
      λ d k. let same : e ≡ d = cc k in subst (λ x. x.expires_at ≤ s.now + lock_ttl) same short;
}
  where
    backed_by :
        (v : String) (b : Bool)
        → (w == v) ≡ b
        → s.now < set_at w e.expires_at s.lease v
        → IsBacked (record s { key = some e; lease = set_at w e.expires_at s.lease }) v
    backed_by v true b l = record {
      entry = e;
      stored = refl;
      own = own ∙ ==→≡ b;
      long = rw b (omega arith);
    }
    backed_by v false b l =
        let before : s.now < s.lease v =
          subst (λ t. s.now < (if t then e.expires_at else s.lease v)) b l in
        absurd (cc (b, subst (λ x. (w == x) ≡ true) (alone v before) (==_refl w)))

-- Of the workers with a lease, the one that the live entry names is the only one.
alone_with :
    (w : String) (e : Entry) (s : System)
    → IsSound s
    → s.key ≡ some e
    → e.holder ≡ w
    → (v : String) → s.now < s.lease v
    → w ≡ v
alone_with w e s h k own v l =
    let b = h.backed v l in
    let same : e ≡ b.entry = some_inj (sym k ∙ b.stored) in
    sym own ∙ ap (λ x. x.holder) same ∙ b.own
  where
    some_inj : {x y : Entry} → some x ≡ some y → x ≡ y
    some_inj e = cc e

acquire_set-IsSound : (w : String) (s : System) → IsSound s → IsSound (acquire_set w s)
unfolding acquire_set
acquire_set-IsSound w s h = elim (Option-cases (live s)) [
  | inr (e, k) ↦ rw (k, acquire_set) (go-IsSound w asking s h)
  | inl n ↦
      let e : Entry = record { holder = w; expires_at = s.now + lock_ttl } in
      rw (n, acquire_set)
        (go-IsSound w holding
          (record s { key = some e; lease = set_at w (s.now + lock_ttl) s.lease })
          (granted-IsSound w e s h refl (omega arith) (λ v l. absurd (no_lease s v h n l))))
]

acquire_get-IsSound : (w : String) (s : System) → IsSound s → IsSound (acquire_get w s)
unfolding acquire_get
acquire_get-IsSound w s h = elim (Option-cases (live s)) [
  | inl n ↦ rw (n, acquire_get) (go-IsSound w idle s h)
  | inr (e, k) ↦ rw (k, acquire_get) (tested e (live-stored s e k) (e.holder == w) refl)
]
  where
    tested :
        (e : Entry)
        → s.key ≡ some e
        → (b : Bool) → (e.holder == w) ≡ b
        → IsSound (
            if b
            then go w holding (record s { lease = set_at w e.expires_at s.lease })
            else go w idle s)
    tested e k true b =
        let own : e.holder ≡ w = ==→≡ b in
        go-IsSound w holding (record s { lease = set_at w e.expires_at s.lease })
          (subst (λ o. IsSound (record s { key = o; lease = set_at w e.expires_at s.lease }))
            (sym k) (granted-IsSound w e s h own (h.capped e k) (alone_with w e s h k own)))
    tested e k false b = go-IsSound w idle s h

-- The GETs of a renewal and of a release change nothing but where the worker stands.
renew_get-IsSound : (w : String) (s : System) → IsSound s → IsSound (renew_get w s)
unfolding renew_get
renew_get-IsSound w s h = elim (Option-cases (live s)) [
  | inl n ↦ rw (n, renew_get) (go-IsSound w lost s h)
  | inr (e, k) ↦ rw (k, renew_get) (tested (e.holder == w))
]
  where
    tested : (b : Bool) → IsSound (if b then go w renewing s else go w lost s)
    tested true = go-IsSound w renewing s h
    tested false = go-IsSound w lost s h

release_get-IsSound : (w : String) (s : System) → IsSound s → IsSound (release_get w s)
unfolding release_get
release_get-IsSound w s h = elim (Option-cases (live s)) [
  | inl n ↦ rw (n, release_get) (go-IsSound w idle s h)
  | inr (e, k) ↦ rw (k, release_get) (tested (e.holder == w))
]
  where
    tested : (b : Bool) → IsSound (if b then go w releasing s else go w idle s)
    tested true = go-IsSound w releasing s h
    tested false = go-IsSound w idle s h

-- A write in time finds the worker's own key.
renew_expire-IsSound :
    (w : String) (s : System) → IsSound s → s.now < s.lease w → IsSound (renew_expire w s)
unfolding renew_expire
renew_expire-IsSound w s h l =
    let b = h.backed w l in
    rw (live-backed s w b l, renew_expire)
      (go-IsSound w holding
        (record s {
          key = some (record b.entry { expires_at = s.now + lock_ttl });
          lease = set_at w (s.now + lock_ttl) s.lease;
        })
        (granted-IsSound w (record b.entry { expires_at = s.now + lock_ttl }) s h b.own
          (omega arith) (alone_with w b.entry s h b.stored b.own)))

release_delete-IsSound :
    (w : String) (s : System) → IsSound s → s.now < s.lease w → IsSound (release_delete w s)
unfolding release_delete
release_delete-IsSound w s h l =
    go-IsSound w idle (record s { key = none; lease = set_at w 0 s.lease })
      (record {
        backed = λ v k. absurd (none_left v (w == v) refl k);
        capped = λ e k. absurd (cc k);
      })
  where
    none_left : (v : String) (b : Bool) → (w == v) ≡ b → s.now < set_at w 0 s.lease v → ⊥
    none_left v true b k =
        let over : s.now < 0 = subst (λ t. s.now < (if t then 0 else s.lease v)) b k in omega arith
    none_left v false b k =
        let before : s.now < s.lease v = subst (λ t. s.now < (if t then 0 else s.lease v)) b k in
        let same = sole s w v (h.backed w l) (h.backed v before) in
        cc (b, subst (λ x. (w == x) ≡ true) same (==_refl w))

move-IsSound : (m : Move) (s : System) → IsSound s → is_timely m s ≡ true → IsSound (move m s)
unfolding move
move-IsSound tick s h t = tick-IsSound s h
move-IsSound (acquires w) s h t = acquire_set-IsSound w s h
move-IsSound (asks w) s h t = acquire_get-IsSound w s h
move-IsSound (renews w) s h t = renew_get-IsSound w s h
move-IsSound (extends w) s h t = renew_expire-IsSound w s h (ground arith)
move-IsSound (fails w) s h t = go-IsSound w holding s h
move-IsSound (releases w) s h t = release_get-IsSound w s h
move-IsSound (deletes w) s h t = release_delete-IsSound w s h (ground arith)

initial-IsSound : IsSound initial
initial-IsSound = record { backed = λ w l. absurd (omega arith); capped = λ e k. absurd (cc k) }

Reach-IsSound : (s : System) → Reach s → IsSound s
Reach-IsSound s begins = initial-IsSound
Reach-IsSound _ (moves s m r e t) = move-IsSound m s (Reach-IsSound s r) t

-- Whatever moves the workers make, in any order, while each renewal and each delete comes before the
-- worker's lease ends, two workers whose leases have not ended are the same, and the key is that worker's
-- and has not expired.
pub Reach-excludes :
    (s : System) (v w : String)
    → Reach s
    → s.now < s.lease v
    → s.now < s.lease w
    → (v ≡ w) × ((e : Entry) × (live s ≡ some e) × (e.holder ≡ v))
Reach-excludes s v w r l k =
    let h = Reach-IsSound s r in
    let b = h.backed v l in (sole s v w b (h.backed w k), (b.entry, live-backed s v b l, b.own))

-- Nothing is asked of the key for some seconds.
abbrev pub waits : ℕ → System → System
waits n s = record s { now = s.now + n }

-- In a system that moves in time led to, where each renewal and each delete came before the worker's lease
-- ended: if nothing is asked of the key for as long as an entry lives, for example because its holder died,
-- then the next worker that asks for the lock gets it.
pub acquire_set-free :
    (s : System) (w : String)
    → Reach s
    → ((acquire_set w (waits lock_ttl s)).pc w ≡ holding)
      × ((acquire_set w (waits lock_ttl s)).key
          ≡ some (record { holder = w; expires_at = s.now + lock_ttl + lock_ttl }))
unfolding acquire_set
acquire_set-free s w r = rw (expired s.key refl, acquire_set) (rw (==_refl w) refl, refl)
  where
    expired : (o : Option Entry) → s.key ≡ o → live (waits lock_ttl s) ≡ none
    expired none k = rw k refl
    expired (some e) k =
        let capped = (Reach-IsSound s r).capped e k in
        let over : ltb (s.now + lock_ttl) e.expires_at ≡ false = ground arith in rw k (rw over refl)
