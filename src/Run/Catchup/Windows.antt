-- ===== src/Run/Catchup/Windows.antt =====
-- apps/worker/chain_runner.py: which blocks the windows of the catch-up cover.
use chain_indexer.Base.{
  ℕ, zero, suc, ◌+◌, ◌-◌, ◌≤◌, ◌<◌, min, ◌≡◌, refl, sym, ap, ◌∙◌, List, [], ◌∷◌, ◌++◌, All, arith,
  leb, Bool-cases, inl, inr, leb→le, leb→gt,
}
use chain_indexer.Run.Catchup.{blocks_from, windows}

-- The blocks of the windows, in order.
abbrev pub blocks_of : List (ℕ × ℕ) → List ℕ
blocks_of [] = []
blocks_of ((start, end_n) ∷ ws) = blocks_from (suc end_n - start) start ++ blocks_of ws

abbrev pub IsWithin : ℕ → ℕ × ℕ → Type 0
IsWithin range_blocks w = suc w.1 - w.0 ≤ range_blocks

pub blocks_from-add : (a b s : ℕ) → blocks_from (a + b) s ≡ blocks_from a s ++ blocks_from b (s + a)
unfolding blocks_from
blocks_from-add zero b s =
    let m : zero + b ≡ b = omega arith in let n : s + zero ≡ s = omega arith in rw (m, n) refl
blocks_from-add (suc a) b s =
    let m : suc a + b ≡ suc (a + b) = omega arith in
    let n : s + suc a ≡ suc s + a = omega arith in
    rw (m, n) (ap (λ l. s ∷ l) (blocks_from-add a b (suc s)))

pub no_blocks : (n s : ℕ) → n ≡ 0 → blocks_from n s ≡ []
unfolding blocks_from
no_blocks zero s h = refl
no_blocks (suc n) s h = absurd (omega arith)

join :
    (s e t : ℕ)
    → s ≤ e + 1
    → e ≤ t
    → blocks_from (suc e - s) s ++ blocks_from (suc t - (e + 1)) (e + 1) ≡ blocks_from (suc t - s) s
join s e t h k =
    let next : e + 1 ≡ s + (suc e - s) = omega arith in
    let total : (suc e - s) + (suc t - (e + 1)) ≡ suc t - s = omega arith in
    ap (λ n. blocks_from (suc e - s) s ++ blocks_from (suc t - (e + 1)) n) next
    ∙ sym (blocks_from-add (suc e - s) (suc t - (e + 1)) s)
    ∙ ap (λ n. blocks_from n s) total

-- With windows of at least one block, and as much fuel as there are blocks, the windows cover every block
-- from the first to the safe tip, each once and in order, and none is longer than allowed.
pub windows-blocks_from :
    (fuel range_blocks start safe_tip : ℕ)
    → 0 < range_blocks
    → safe_tip < start + fuel
    → (blocks_of (windows fuel range_blocks start safe_tip)
        ≡ blocks_from (suc safe_tip - start) start)
      × All (IsWithin range_blocks) (windows fuel range_blocks start safe_tip)
unfolding windows
windows-blocks_from zero r s t pr h = (sym (no_blocks (suc t - s) s (omega arith)), tt)
windows-blocks_from (suc fuel) r s t pr h = elim (Bool-cases (leb s t)) [
  | inl b ↦
      let e = min (s + r - 1) t in
      let small : s ≤ t = leb→le s t b in
      let low : s ≤ e + 1 = omega arith in
      let high : e ≤ t = omega arith in
      let within : suc e - s ≤ r = omega arith in
      let ih = windows-blocks_from fuel r (e + 1) t pr (omega arith) in
      rw (b, windows)
        (ap (λ l. blocks_from (suc e - s) s ++ l) ih.0 ∙ join s e t low high, (within, ih.1))
  | inr b ↦
      let big : t < s = leb→gt s t b in
      rw (b, windows) (sym (no_blocks (suc t - s) s (omega arith)), tt)
]
