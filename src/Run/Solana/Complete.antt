-- ===== src/Run/Solana/Complete.antt =====
-- apps/worker/chain_runner.py: which slots with a block the catch-up of a Solana chain processes.
mod Tests
use chain_indexer.Base.{
  ℕ, zero, suc, ◌+◌, ◌-◌, ◌≤◌, ◌<◌, ◌≡◌, ◌≢◌, refl, sym, subst, ap, ◌∙◌, String, Bool, true, false,
  Option, none, some, List, [], ◌∷◌, ◌++◌, arith, All, Among, here, there, Among-cases,
  Option-cases, Bool-cases, inl, inr, ◌⊎◌, ltb, leb, if◌then◌else◌,
}
use chain_indexer.Config.Snapshot.{SnapshotSubscription}
use chain_indexer.Run.Catchup.{
  catchup_bounds, blocks_from, windows, Ending, went_on, stops, fails, followed,
}
use chain_indexer.Run.Catchup.Windows.{blocks_of, windows-blocks_from}
use chain_indexer.Run.Solana.{
  Listed, listed, too_large, failed, get_blocks_classified, process_slots, catchup_slots,
  catchup_solana,
}

Among-left {ℓ} : {A : Type ℓ} (x : A) (xs ys : List A) → Among x xs → Among x (xs ++ ys)
Among-left x [] ys m = elim m [ ]
Among-left x (y ∷ xs) ys here = here
Among-left x (y ∷ xs) ys (there m) = there (Among-left x xs ys m)

Among-right {ℓ} : {A : Type ℓ} (x : A) (xs ys : List A) → Among x ys → Among x (xs ++ ys)
Among-right x [] ys m = m
Among-right x (y ∷ xs) ys m = there (Among-right x xs ys m)

Among-append {ℓ} :
    {A : Type ℓ} (x : A) (xs ys : List A) → Among x (xs ++ ys) → Among x xs ⊎ Among x ys
Among-append x [] ys m = inr m
Among-append x (y ∷ xs) ys here = inl here
Among-append x (y ∷ xs) ys (there m) = elim (Among-append x xs ys m) [
  | inl n ↦ inl (there n)
  | inr n ↦ inr n
]

blocks_from-Among : (n start s : ℕ) → start ≤ s → s < start + n → Among s (blocks_from n start)
unfolding blocks_from
blocks_from-Among zero start s h k = absurd (omega arith)
blocks_from-Among (suc n) start s h k = elim (Bool-cases (leb s start)) [
  | inl b ↦
      let same : s ≡ start = ground arith in
      subst (λ i. Among s (i ∷ blocks_from n (suc start))) same here
  | inr b ↦ there (blocks_from-Among n (suc start) s (ground arith) (omega arith))
]

Among-blocks_from : (n start s : ℕ) → Among s (blocks_from n start) → (start ≤ s) × (s < start + n)
unfolding blocks_from
Among-blocks_from zero start s m = elim m [ ]
Among-blocks_from (suc n) start s m = elim (Among-cases s start (blocks_from n (suc start)) m) [
  | inl same ↦ (omega (arith, same), omega (arith, same))
  | inr k ↦
      let r = Among-blocks_from n (suc start) s k in
      (let a = r.0 in omega arith, let b = r.1 in omega arith)
]

module _ (is_stopped is_processed is_produced : ℕ → Bool) (get_blocks : ℕ → ℕ → Listed) where
  -- The node lists every slot of a range that has a block, if it lists any.
  abbrev pub ListsAll : Type 0
  ListsAll =
      (start stop s : ℕ) (slots : List ℕ)
      → get_blocks start stop ≡ listed slots
      → start ≤ s
      → s ≤ stop
      → is_produced s ≡ true
      → Among s slots

  -- No range is too large for the node.
  abbrev pub NoneTooLarge : Type 0
  NoneTooLarge = (start stop : ℕ) → get_blocks start stop ≢ too_large

  abbrev pub NeverStopped : Type 0
  NeverStopped = (s : ℕ) → is_stopped s ≡ false

  module _ (runs : NeverStopped) (all_listed : ListsAll) (fits : NoneTooLarge) (s : ℕ)
      (processed : is_processed s ≡ true) (produced : is_produced s ≡ true) where
    process_slots-went_on :
        (slots : List ℕ) → (process_slots is_stopped is_processed slots).1 ≡ went_on
    unfolding process_slots
    process_slots-went_on [] = refl
    process_slots-went_on (t ∷ ts) = elim (Bool-cases (is_processed t)) [
      | inl b ↦ rw (runs t, b, process_slots) (process_slots-went_on ts)
      | inr b ↦ rw (runs t, b, process_slots) (process_slots-went_on ts)
    ]

    process_slots-Among :
        (slots : List ℕ) → Among s slots → Among s (process_slots is_stopped is_processed slots).0
    unfolding process_slots
    process_slots-Among [] m = elim m [ ]
    process_slots-Among (t ∷ ts) m = elim (Among-cases s t ts m) [
      | inl same ↦
          let ok : is_processed t ≡ true = subst (λ x. is_processed x ≡ true) same processed in
          rw (runs t, ok, process_slots)
            (subst (λ x. Among s (x ∷ (process_slots is_stopped is_processed ts).0)) same here)
      | inr k ↦ elim (Bool-cases (is_processed t)) [
        | inl b ↦ rw (runs t, b, process_slots) (there (process_slots-Among ts k))
        | inr b ↦ rw (runs t, b, process_slots) (process_slots-Among ts k)
      ]
    ]

    -- A window whose loop goes on, and those behind it.
    followed_by :
        (out further : List ℕ × Ending)
        → out.1 ≡ went_on
        → (followed out further).0 ≡ out.0 ++ further.0
    followed_by (ns, went_on) further e = refl
    followed_by (ns, stops) further e = absurd (cc e)
    followed_by (ns, fails) further e = absurd (cc e)

    -- One window.
    classified :
        (start stop : ℕ) (answer : Listed)
        → get_blocks start stop ≡ answer
        → start ≤ s
        → s ≤ stop
        → (slots : List ℕ) × (get_blocks_classified answer start stop ≡ some slots) × Among s slots
    unfolding get_blocks_classified
    classified start stop (listed slots) e h k =
        (slots, refl, all_listed start stop s slots e h k produced)
    classified start stop too_large e h k = absurd (fits start stop e)
    classified start stop failed e h k = (
      blocks_from (suc stop - start) start,
      refl,
      blocks_from-Among (suc stop - start) start s h (omega arith),
    )

    never_raises :
        (start stop : ℕ) (answer : Listed)
        → get_blocks start stop ≡ answer
        → (slots : List ℕ) × (get_blocks_classified answer start stop ≡ some slots)
    unfolding get_blocks_classified
    never_raises start stop (listed slots) e = (slots, refl)
    never_raises start stop too_large e = absurd (fits start stop e)
    never_raises start stop failed e = (blocks_from (suc stop - start) start, refl)

    catchup_slots-Among :
        (ws : List (ℕ × ℕ))
        → Among s (blocks_of ws)
        → Among s (catchup_slots is_stopped is_processed get_blocks ws).0
    unfolding catchup_slots
    catchup_slots-Among [] m = elim m [ ]
    catchup_slots-Among ((start, stop) ∷ ws) m =
        elim (Among-append s (blocks_from (suc stop - start) start) (blocks_of ws) m) [
          | inl n ↦
              let within = Among-blocks_from (suc stop - start) start s n in
              let low = within.0 in
              let high = within.1 in
              let c = classified start stop (get_blocks start stop) refl low (omega arith) in
              let out = process_slots is_stopped is_processed c.0 in
              let further = catchup_slots is_stopped is_processed get_blocks ws in
              rw (c.1, catchup_slots)
                (subst (Among s) (sym (followed_by out further (process_slots-went_on c.0)))
                  (Among-left s out.0 further.0 (process_slots-Among c.0 c.2)))
          | inr n ↦
              let c = never_raises start stop (get_blocks start stop) refl in
              let out = process_slots is_stopped is_processed c.0 in
              let further = catchup_slots is_stopped is_processed get_blocks ws in
              rw (c.1, catchup_slots)
                (subst (Among s) (sym (followed_by out further (process_slots-went_on c.0)))
                  (Among-right s out.0 further.0 (catchup_slots-Among ws n)))
        ]

    -- A catch-up that is not stopped processes every slot with a block between its bounds, if processing it
    -- does not fail, whether others fail or not. The windows have at least one slot and none is too large
    -- for the node, and the node lists all slots with a block or fails.
    pub catchup_solana-Among :
        (chain_id : String) (subs : List SnapshotSubscription) (checkpoint tip : Option ℕ)
        (range_slots start stop : ℕ)
        → 0 < range_slots
        → catchup_bounds chain_id subs checkpoint tip 0 ≡ some (start, stop)
        → start ≤ s
        → s ≤ stop
        → Among s
            (catchup_solana is_stopped is_processed chain_id subs checkpoint tip range_slots
              get_blocks).0
    unfolding catchup_solana
    catchup_solana-Among chain_id subs checkpoint tip r start stop pr e h k =
        let covered = windows-blocks_from (suc stop - start) r start stop pr (omega arith) in
        rw (e, catchup_solana)
          (catchup_slots-Among (windows (suc stop - start) r start stop) (
            subst (Among s) (sym covered.0)
              (blocks_from-Among (suc stop - start) start s h (omega arith))))
