-- ===== src/Run/Solana/Complete/Tests.antt =====
-- A node with one block, in slot 8, that lists the slots of windows up to there and fails behind it; the runner
-- is behind a checkpoint at slot 6, and cannot process slot 9.
use chain_indexer.Base.{
  ℕ, ◌≡◌, refl, subst, sym, some, [], ◌∷◌, Bool, true, false, not, Among, here, arith, leb, ◌==◌,
  nat_comparable, if◌then◌else◌, ==→≡,
}
use chain_indexer.Run.Catchup.{catchup_bounds, sub_starts, minimum, bounds}
use chain_indexer.Run.Solana.{Listed, listed, too_large, failed, catchup_solana}
use chain_indexer.Run.Solana.Complete.{ListsAll, NoneTooLarge, catchup_solana-Among}

abbrev get_blocks : ℕ → ℕ → Listed
get_blocks start stop = if leb start 8 then listed (8 ∷ []) else failed

abbrev is_produced : ℕ → Bool
is_produced s = s == 8

abbrev never : ℕ → Bool
never s = false

abbrev is_processed : ℕ → Bool
is_processed s = not (s == 9)

one_listed : ListsAll never is_processed is_produced get_blocks
one_listed start stop s slots e h k p = among (leb start 8) e
  where
    among : (b : Bool) → (if b then listed (8 ∷ []) else failed) ≡ listed slots → Among s slots
    among true e =
        let same : 8 ∷ [] ≡ slots = cc e in
        subst (Among s) same (subst (λ t. Among t (8 ∷ [])) (sym (==→≡ p)) here)
    among false e = absurd (cc e)

none_large : NoneTooLarge never is_processed is_produced get_blocks
none_large start stop e = large (leb start 8) e
  where
    large : (b : Bool) → (if b then listed (8 ∷ []) else failed) ≡ too_large → ⊥
    large true e = cc e
    large false e = cc e

catchup_solana-Among_example :
    Among 8 (catchup_solana never is_processed "sol" [] (some 6) (some 9) 2 get_blocks).0
unfolding catchup_bounds sub_starts minimum bounds
catchup_solana-Among_example =
    catchup_solana-Among never is_processed is_produced get_blocks (λ s. refl) one_listed none_large
      8 refl refl "sol" [] (some 6) (some 9) 2 7 9 (omega arith) refl (omega arith) (omega arith)
