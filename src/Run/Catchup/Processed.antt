-- ===== src/Run/Catchup/Processed.antt =====
-- apps/worker/chain_runner.py: which blocks the catch-up of an EVM chain processes before it ends.
mod Tests
use mathlib.Core.List.{append_assoc, append-nil}
use chain_indexer.Base.{
  ℕ, zero, suc, ◌+◌, ◌-◌, ◌≤◌, ◌<◌, min, String, ◌≡◌, ◌⊎◌, inl, inr, refl, sym, subst, ap, ◌∙◌,
  Bool, true, false, Option, none, some, List, [], ◌∷◌, ◌++◌, All, arith, leb, leb→le, Bool-cases,
  if◌then◌else◌,
}
use chain_indexer.Config.Snapshot.{SnapshotSubscription}
use chain_indexer.Run.Catchup.{
  catchup_bounds, blocks_from, windows, Ending, went_on, stops, fails, followed, process_blocks,
  process_windows, catchup_evm,
}
use chain_indexer.Run.Catchup.Windows.{blocks_of, windows-blocks_from}

-- A window has a block.
abbrev IsFull : ℕ × ℕ → Type 0
IsFull w = w.0 ≤ w.1

windows-IsFull :
    (fuel range_blocks start safe_tip : ℕ)
    → 0 < range_blocks
    → All IsFull (windows fuel range_blocks start safe_tip)
unfolding windows
windows-IsFull zero r s t pr = tt
windows-IsFull (suc fuel) r s t pr = elim (Bool-cases (leb s t)) [
  | inl b ↦
      let small : s ≤ t = leb→le s t b in
      rw (b, windows) (omega arith, windows-IsFull fuel r (min (s + r - 1) t + 1) t pr)
  | inr b ↦ rw (b, windows) tt
]

module _ (is_stopped is_processed : ℕ → Bool) (is_fetched : ℕ → ℕ → Bool) where
  -- Why the blocks that are left are not processed.
  abbrev pub Why : Ending → List ℕ → Type 0
  Why went_on rest = rest ≡ []
  Why stops [] = ⊥
  Why stops (n ∷ ns) = is_stopped n ≡ true
  Why fails [] = ⊥
  Why fails (n ∷ ns) =
      (is_processed n ≡ false) ⊎ ((end_n : ℕ) × (n ≤ end_n) × (is_fetched n end_n ≡ false))

  -- Of some blocks the first are processed, in order, up to one that gives the reason to end.
  abbrev pub Follows : List ℕ → List ℕ × Ending → Type 0
  Follows ns out = (rest : List ℕ) × (out.0 ++ rest ≡ ns) × Why out.1 rest

  process_blocks-Follows :
      (ns : List ℕ) → Follows ns (process_blocks is_stopped is_processed is_fetched ns)
  unfolding process_blocks
  process_blocks-Follows [] = ([], refl, refl)
  process_blocks-Follows (n ∷ ns) = elim (Bool-cases (is_stopped n)) [
    | inl b ↦ rw (b, process_blocks) (n ∷ ns, refl, b)
    | inr b ↦ elim (Bool-cases (is_processed n)) [
      | inr c ↦ rw (b, c, process_blocks) (n ∷ ns, refl, inl c)
      | inl c ↦
          let r = process_blocks-Follows ns in
          rw (b, c, process_blocks) (r.0, ap (λ l. n ∷ l) r.1, r.2)
    ]
  ]

  -- What is left of a part that ends is left with all that comes behind it.
  followed-Follows :
      (ns ms : List ℕ) (out further : List ℕ × Ending)
      → Follows ns out
      → Follows ms further
      → Follows (ns ++ ms) (followed out further)
  followed-Follows ns ms (ps, went_on) further (rest, e, w) (rest', e', w') =
      let all : ps ≡ ns = sym (append-nil ps) ∙ ap (λ l. ps ++ l) (sym w) ∙ e in
      (rest', append_assoc ps further.0 rest' ∙ ap (λ l. ps ++ l) e' ∙ ap (λ l. l ++ ms) all, w')
  followed-Follows ns ms (ps, stops) further ([], e, w) g = absurd w
  followed-Follows ns ms (ps, stops) further (n ∷ rest, e, w) g =
      ((n ∷ rest) ++ ms, sym (append_assoc ps (n ∷ rest) ms) ∙ ap (λ l. l ++ ms) e, w)
  followed-Follows ns ms (ps, fails) further ([], e, w) g = absurd w
  followed-Follows ns ms (ps, fails) further (n ∷ rest, e, w) g =
      ((n ∷ rest) ++ ms, sym (append_assoc ps (n ∷ rest) ms) ∙ ap (λ l. l ++ ms) e, w)

  -- A window whose logs are not fetched leaves its first block.
  unfetched :
      (start_n end_n : ℕ) (ms : List ℕ)
      → start_n ≤ end_n
      → is_fetched start_n end_n ≡ false
      → Follows (blocks_from (suc end_n - start_n) start_n ++ ms) ([], fails)
  unfolding blocks_from
  unfetched start_n end_n ms h b =
      let one : suc end_n - start_n ≡ suc (end_n - start_n) = omega arith in
      rw one
        (start_n ∷ (blocks_from (end_n - start_n) (suc start_n) ++ ms), refl, inr (end_n, h, b))

  process_windows-Follows :
      (ws : List (ℕ × ℕ))
      → All IsFull ws
      → Follows (blocks_of ws) (process_windows is_stopped is_processed is_fetched ws)
  unfolding process_windows
  process_windows-Follows [] h = ([], refl, refl)
  process_windows-Follows ((start_n, end_n) ∷ ws) h = elim (Bool-cases (is_fetched start_n end_n)) [
    | inl b ↦
        rw (b, process_windows)
          (followed-Follows (blocks_from (suc end_n - start_n) start_n) (blocks_of ws)
            (process_blocks is_stopped is_processed is_fetched
              (blocks_from (suc end_n - start_n) start_n))
            (process_windows is_stopped is_processed is_fetched ws)
            (process_blocks-Follows (blocks_from (suc end_n - start_n) start_n))
            (process_windows-Follows ws h.1))
    | inr b ↦ rw (b, process_windows) (unfetched start_n end_n (blocks_of ws) h.0 b)
  ]

  -- With windows of at least one block, a catch-up between two blocks processes all of them, each once and
  -- in order, or the first of them, up to one at which the runner is stopped, whose processing fails, or
  -- with which a window begins whose logs cannot be fetched.
  pub catchup_evm-Follows :
      (chain_id : String) (subs : List SnapshotSubscription) (checkpoint tip : Option ℕ)
      (confirmations range_blocks start stop : ℕ)
      → 0 < range_blocks
      → catchup_bounds chain_id subs checkpoint tip confirmations ≡ some (start, stop)
      → Follows (blocks_from (suc stop - start) start) (
          catchup_evm is_stopped is_processed is_fetched chain_id subs checkpoint tip confirmations
            range_blocks)
  unfolding catchup_evm
  catchup_evm-Follows chain_id subs checkpoint tip confirmations r start stop pr e =
      let ws = windows (suc stop - start) r start stop in
      rw (e, catchup_evm)
        (subst (λ ns. Follows ns (process_windows is_stopped is_processed is_fetched ws))
          (windows-blocks_from (suc stop - start) r start stop pr (omega arith)).0
          (process_windows-Follows ws (windows-IsFull (suc stop - start) r start stop pr)))
