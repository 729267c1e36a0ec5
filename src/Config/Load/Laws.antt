-- ===== src/Config/Load/Laws.antt =====
-- core/config/snapshot.py: when a snapshot that is loaded is well formed.
mod Tests
use chain_indexer.Base.{
  ℕ, ◌≡◌, ◌≢◌, refl, sym, subst, ap, ◌∙◌, String, Bool, true, false, Option, none, some, List, [],
  ◌∷◌, map, filter, any, contains, ◌==◌, ◌||◌, string_comparable, ==→≡, ==_refl, ==_flip,
  Bool-cases, inl, inr, ◌⊎◌, All, Among, here, there, Among-cases, if◌then◌else◌,
}
use chain_indexer.Config.Snapshot.{
  SnapshotSubscription, SnapshotChannel, SnapshotChain, ConfigSnapshot,
}
use chain_indexer.Config.Rows.{Channel, Subscription, Database}
use chain_indexer.Config.Rows.Chains.{list_enabled}
use chain_indexer.Config.Rows.Subscriptions.{channels_of, list_enabled_with_channels}
use chain_indexer.Config.Load.{
  snap_chain, snap_channel, snap_sub, set_default, set_defaults, snap_channels, snap_subs,
  is_active, load_snapshot,
}

-- A channel of that id is in the list.
abbrev pub HasChannel : List SnapshotChannel → String → Type 0
HasChannel cs cid = (c : SnapshotChannel) × Among c cs × (c.id ≡ cid)

-- No id stands twice.
abbrev pub AreDistinct : List SnapshotChannel → Type 0
AreDistinct [] = Unit
AreDistinct (c ∷ cs) = (any (λ d. d.id == c.id) cs ≡ false) × AreDistinct cs

-- The subscription is enabled and has channels, all of them among those of the snapshot.
pub record IsBound (cs : List SnapshotChannel) (s : SnapshotSubscription) : Type 0 where
  pub enabled : s.enabled ≡ true
  pub some_channel : s.channel_ids ≢ []
  pub all_channels : All (HasChannel cs) s.channel_ids

-- The chain has a subscription.
abbrev pub IsActive : List SnapshotSubscription → SnapshotChain → Type 0
IsActive subs c = (s : SnapshotSubscription) × Among s subs × (s.chain_id ≡ c.id)

pub record IsWellFormed (snap : ConfigSnapshot) : Type 0 where
  pub bound : All (IsBound snap.channels) snap.subscriptions
  pub distinct : AreDistinct snap.channels
  pub active : All (IsActive snap.subscriptions) snap.chains

set_default-there :
    (ch : Channel) (cs : List SnapshotChannel) (cid : String)
    → HasChannel cs cid
    → HasChannel (set_default ch cs) cid
unfolding set_default
set_default-there ch [] cid (c, m, e) = elim m [ ]
set_default-there ch (d ∷ cs) cid (c, m, e) = elim (Bool-cases (d.id == ch.id)) [
  | inl b ↦ rw (b, set_default) (c, m, e)
  | inr b ↦ elim (Among-cases c d cs m) [
    | inl same ↦ rw (b, set_default) (d, here, ap (λ x. x.id) (sym same) ∙ e)
    | inr n ↦
        let r = set_default-there ch cs cid (c, n, e) in rw (b, set_default) (r.0, there r.1, r.2)
  ]
]

set_default-adds : (ch : Channel) (cs : List SnapshotChannel) → HasChannel (set_default ch cs) ch.id
unfolding set_default
set_default-adds ch [] = (snap_channel ch, here, refl)
set_default-adds ch (d ∷ cs) = elim (Bool-cases (d.id == ch.id)) [
  | inl b ↦ rw (b, set_default) (d, here, ==→≡ b)
  | inr b ↦ let r = set_default-adds ch cs in rw (b, set_default) (r.0, there r.1, r.2)
]

set_defaults-there :
    (chs : List Channel) (cs : List SnapshotChannel) (cid : String)
    → HasChannel cs cid
    → HasChannel (set_defaults chs cs) cid
unfolding set_defaults
set_defaults-there [] cs cid h = h
set_defaults-there (ch ∷ chs) cs cid h =
    set_defaults-there chs (set_default ch cs) cid (set_default-there ch cs cid h)

set_defaults-adds :
    (chs : List Channel) (cs : List SnapshotChannel)
    → All (HasChannel (set_defaults chs cs)) (map (λ ch. ch.id) chs)
unfolding set_defaults
set_defaults-adds [] cs = tt
set_defaults-adds (ch ∷ chs) cs = (
  set_defaults-there chs (set_default ch cs) ch.id (set_default-adds ch cs),
  set_defaults-adds chs (set_default ch cs),
)

snap_channels-there :
    (bindings : List (Subscription × List Channel)) (cs : List SnapshotChannel) (cid : String)
    → HasChannel cs cid
    → HasChannel (snap_channels bindings cs) cid
unfolding snap_channels
snap_channels-there [] cs cid h = h
snap_channels-there ((sub, chs) ∷ bindings) cs cid h =
    snap_channels-there bindings (set_defaults chs cs) cid (set_defaults-there chs cs cid h)

All-map {ℓ κ} :
    {A : Type ℓ} (P Q : A → Type κ) (xs : List A) → ((x : A) → P x → Q x) → All P xs → All Q xs
All-map P Q [] f h = tt
All-map P Q (x ∷ xs) f h = (f x h.0, All-map P Q xs f h.1)

abbrev IsEnabled : Subscription × List Channel → Type 0
IsEnabled b = b.0.enabled ≡ true

-- The bindings of enabled subscriptions become bound subscriptions.
snap_subs-IsBound :
    (bindings : List (Subscription × List Channel)) (cs : List SnapshotChannel)
    → All IsEnabled bindings
    → All (IsBound (snap_channels bindings cs)) (snap_subs bindings)
unfolding snap_channels snap_subs
snap_subs-IsBound [] cs h = tt
snap_subs-IsBound ((sub, []) ∷ bindings) cs h =
    unfold set_defaults in snap_subs-IsBound bindings cs h.1
snap_subs-IsBound ((sub, ch ∷ chs) ∷ bindings) cs h = (
  record {
    enabled = h.0;
    some_channel = λ e. cc e;
    all_channels =
        All-map (HasChannel (set_defaults (ch ∷ chs) cs))
          (HasChannel (snap_channels bindings (set_defaults (ch ∷ chs) cs)))
          (map (λ c. c.id) (ch ∷ chs))
          (λ cid. snap_channels-there bindings (set_defaults (ch ∷ chs) cs) cid)
          (set_defaults-adds (ch ∷ chs) cs);
  },
  snap_subs-IsBound bindings (set_defaults (ch ∷ chs) cs) h.1,
)

any-set_default :
    (d : SnapshotChannel) (ch : Channel) (cs : List SnapshotChannel)
    → (ch.id == d.id) ≡ false
    → any (λ c. c.id == d.id) cs ≡ false
    → any (λ c. c.id == d.id) (set_default ch cs) ≡ false
unfolding set_default
any-set_default d ch [] h g = rw h refl
any-set_default d ch (c ∷ cs) h g = elim (Bool-cases (c.id == ch.id)) [
  | inl b ↦ rw (b, set_default) g
  | inr b ↦ elim (Bool-cases (c.id == d.id)) [
    | inl e ↦ absurd (cc (subst (λ t. (t || any (λ c. c.id == d.id) cs) ≡ false) e g))
    | inr e ↦
        rw (b, set_default)
          (rw e (
            any-set_default d ch cs h (subst (λ t. (t || any (λ c. c.id == d.id) cs) ≡ false) e g)))
  ]
]

set_default-AreDistinct :
    (ch : Channel) (cs : List SnapshotChannel) → AreDistinct cs → AreDistinct (set_default ch cs)
unfolding set_default
set_default-AreDistinct ch [] h = (refl, tt)
set_default-AreDistinct ch (d ∷ cs) h = elim (Bool-cases (d.id == ch.id)) [
  | inl b ↦ rw (b, set_default) h
  | inr b ↦
      rw (b, set_default)
        (any-set_default d ch cs (==_flip d.id ch.id b) h.0, set_default-AreDistinct ch cs h.1)
]

set_defaults-AreDistinct :
    (chs : List Channel) (cs : List SnapshotChannel)
    → AreDistinct cs
    → AreDistinct (set_defaults chs cs)
unfolding set_defaults
set_defaults-AreDistinct [] cs h = h
set_defaults-AreDistinct (ch ∷ chs) cs h =
    set_defaults-AreDistinct chs (set_default ch cs) (set_default-AreDistinct ch cs h)

snap_channels-AreDistinct :
    (bindings : List (Subscription × List Channel)) (cs : List SnapshotChannel)
    → AreDistinct cs
    → AreDistinct (snap_channels bindings cs)
unfolding snap_channels
snap_channels-AreDistinct [] cs h = h
snap_channels-AreDistinct ((sub, chs) ∷ bindings) cs h =
    snap_channels-AreDistinct bindings (set_defaults chs cs) (set_defaults-AreDistinct chs cs h)

is_active-IsActive :
    (c : SnapshotChain) (subs : List SnapshotSubscription)
    → is_active subs c ≡ true
    → IsActive subs c
is_active-IsActive c [] h = absurd (cc h)
is_active-IsActive c (s ∷ subs) h = elim (Bool-cases (c.id == s.chain_id)) [
  | inl b ↦ let same : c.id ≡ s.chain_id = ==→≡ b in (s, here, sym same)
  | inr b ↦
      let r = is_active-IsActive c subs (subst (λ t. (t || is_active subs c) ≡ true) b h) in
      (r.0, there r.1, r.2)
]

filter-IsActive :
    (subs : List SnapshotSubscription) (cs : List SnapshotChain)
    → All (IsActive subs) (filter (is_active subs) cs)
filter-IsActive subs [] = tt
filter-IsActive subs (c ∷ cs) = elim (Bool-cases (is_active subs c)) [
  | inl b ↦ rw b (is_active-IsActive c subs b, filter-IsActive subs cs)
  | inr b ↦ rw b (filter-IsActive subs cs)
]

enabled-bindings :
    (f : Subscription → List Channel) (subs : List Subscription)
    → All IsEnabled (map (λ sub. (sub, f sub)) (filter (λ sub. sub.enabled) subs))
enabled-bindings f [] = tt
enabled-bindings f (s ∷ subs) = tested s.enabled refl (enabled-bindings f subs)
  where
    tested :
        (b : Bool)
        → s.enabled ≡ b
        → All IsEnabled (map (λ sub. (sub, f sub)) (filter (λ sub. sub.enabled) subs))
        → All IsEnabled (
            map
              (λ sub. (sub, f sub))
              (if b
                then s ∷ filter (λ sub. sub.enabled) subs
                else filter (λ sub. sub.enabled) subs))
    tested true h rest = (h, rest)
    tested false h rest = rest

-- In every snapshot that is loaded the subscriptions are enabled and have channels, all of which the
-- snapshot holds; no id of a channel stands twice; and each chain has a subscription.
pub load_snapshot-IsWellFormed : (db : Database) → IsWellFormed (load_snapshot db)
unfolding load_snapshot
load_snapshot-IsWellFormed db = record {
  bound =
      snap_subs-IsBound (list_enabled_with_channels db) []
        (enabled-bindings (λ sub. channels_of sub db) db.subscriptions);
  distinct = snap_channels-AreDistinct (list_enabled_with_channels db) [] tt;
  active =
      filter-IsActive (snap_subs (list_enabled_with_channels db))
        (map snap_chain (list_enabled db));
}
