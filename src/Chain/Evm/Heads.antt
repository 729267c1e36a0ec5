-- ===== src/Chain/Evm/Heads.antt =====
-- `_poll_heads` of core/chains/evm.py: the heads that are yielded over several polls.
mod Tests
use chain_indexer.Base.{
  ℕ, zero, suc, ◌+◌, ◌-◌, ◌≤◌, ◌<◌, max, ◌≡◌, refl, sym, subst, ap, ◌∙◌, Bool, true, false, Option,
  none, some, List, [], ◌∷◌, ◌++◌, map, ltb, arith, All, Bool-cases, Option-cases, inl, inr,
  if◌then◌else◌,
}
use mathlib.Core.Path.{ap₂}
use mathlib.Core.List.{map-append}
use chain_indexer.Chain.Types.{BlockHeader}
use chain_indexer.Run.Catchup.{blocks_from}
use chain_indexer.Run.Catchup.Windows.{blocks_from-add, no_blocks}

-- One poll: the tip of the node, and its answers to the requests for blocks, where `none` is an exception.
pub record Poll : Type 0 where
  pub tip : ℕ
  pub get_block : ℕ → Option BlockHeader

-- The heads of a range, up to the first that fails.
unfoldable pub heads_of : (ℕ → Option BlockHeader) → List ℕ → List BlockHeader
heads_of get_block [] = []
heads_of get_block (bn ∷ bns) = elim (get_block bn) [
  | none ↦ []
  | some h ↦ h ∷ heads_of get_block bns
]

-- The first block that a poll asks for; `none` is the -1 of `last`.
abbrev pub start_of : Option ℕ → ℕ → ℕ
start_of none n = n
start_of (some last) n = last + 1

abbrev pub is_new : Option ℕ → ℕ → Bool
is_new none n = true
is_new (some last) n = ltb last n

unfoldable pub poll_heads : List Poll → Option ℕ → List BlockHeader
unfolding heads_of blocks_from
poll_heads [] last = []
poll_heads (p ∷ ps) last = elim (is_new last p.tip) [
  | true ↦
      heads_of p.get_block (blocks_from (p.tip + 1 - start_of last p.tip) (start_of last p.tip))
      ++ poll_heads ps (some p.tip)
  | false ↦ poll_heads ps last
]

-- Each request of a poll is answered with the block of the number that is asked for.
abbrev pub Answers : Poll → Type 0
Answers p = (bn : ℕ) → (h : BlockHeader) × (p.get_block bn ≡ some h) × (h.number ≡ bn)

-- The highest tip.
abbrev pub highest : ℕ → List Poll → ℕ
highest n [] = n
highest n (p ∷ ps) = highest (max n p.tip) ps

abbrev numbers : List BlockHeader → List ℕ
numbers = map (λ h. h.number)

numbers-heads_of : (p : Poll) (bns : List ℕ) → Answers p → numbers (heads_of p.get_block bns) ≡ bns
unfolding heads_of
numbers-heads_of p [] a = refl
numbers-heads_of p (bn ∷ bns) a =
    let h = a bn in rw (h.1, heads_of) (ap₂ (λ x l. x ∷ l) h.2 (numbers-heads_of p bns a))

highest_above : (n : ℕ) (ps : List Poll) → n ≤ highest n ps
highest_above n [] = omega arith
highest_above n (p ∷ ps) = let k = highest_above (max n p.tip) ps in ground (arith, k)

-- A range up to a tip, and the one behind it.
joined :
    (s tip top : ℕ)
    → s ≤ tip + 1
    → tip ≤ top
    → blocks_from (tip + 1 - s) s ++ blocks_from (top - tip) (tip + 1) ≡ blocks_from (top + 1 - s) s
joined s tip top h k =
    let next : tip + 1 ≡ s + (tip + 1 - s) = omega arith in
    let total : (tip + 1 - s) + (top - tip) ≡ top + 1 - s = omega arith in
    ap (λ n. blocks_from (tip + 1 - s) s ++ blocks_from (top - tip) n) next
    ∙ sym (blocks_from-add (tip + 1 - s) (top - tip) s)
    ∙ ap (λ n. blocks_from n s) total

-- Behind the block that was last, up to the highest tip.
numbers-poll_heads :
    (ps : List Poll) (last : ℕ)
    → All Answers ps
    → numbers (poll_heads ps (some last)) ≡ blocks_from (highest last ps - last) (last + 1)
unfolding poll_heads
numbers-poll_heads [] last a = sym (no_blocks (last - last) (last + 1) (omega arith))
numbers-poll_heads (p ∷ ps) last a = elim (Bool-cases (ltb last p.tip)) [
  | inr b ↦
      let same : max last p.tip ≡ last = ground arith in
      rw (b, poll_heads)
        (numbers-poll_heads ps last a.1
          ∙ ap (λ m. blocks_from (highest m ps - last) (last + 1)) (sym same))
  | inl b ↦
      let same : max last p.tip ≡ p.tip = ground arith in
      rw (b, poll_heads)
        (map-append (λ h. h.number)
            (heads_of p.get_block (blocks_from (p.tip + 1 - (last + 1)) (last + 1)))
            (poll_heads ps (some p.tip))
          ∙ ap₂ (λ xs ys. xs ++ ys)
              (numbers-heads_of p (blocks_from (p.tip + 1 - (last + 1)) (last + 1)) a.0)
              (numbers-poll_heads ps p.tip a.1)
          ∙ joined (last + 1) p.tip (highest p.tip ps) (ground arith) (highest_above p.tip ps)
          ∙ ap₂ (λ n m. blocks_from n m) (sizes (highest_above p.tip ps) same) refl)
]
  where
    sizes :
        p.tip ≤ highest p.tip ps
        → max last p.tip ≡ p.tip
        → highest p.tip ps + 1 - (last + 1) ≡ highest (max last p.tip) ps - last
    sizes h e =
        subst (λ m. highest p.tip ps + 1 - (last + 1) ≡ highest m ps - last) (sym e) (omega arith)

-- While the node answers each request, the polls yield every block from the first tip to the highest, each
-- once and in order, however the tips of the polls go up and down.
pub poll_heads-blocks_from :
    (p : Poll) (ps : List Poll)
    → All Answers (p ∷ ps)
    → map (λ h. h.number) (poll_heads (p ∷ ps) none)
      ≡ blocks_from (highest p.tip ps + 1 - p.tip) p.tip
unfolding poll_heads
poll_heads-blocks_from p ps a =
    map-append (λ h. h.number) (heads_of p.get_block (blocks_from (p.tip + 1 - p.tip) p.tip))
      (poll_heads ps (some p.tip))
    ∙ ap₂ (λ xs ys. xs ++ ys) (numbers-heads_of p (blocks_from (p.tip + 1 - p.tip) p.tip) a.0)
        (numbers-poll_heads ps p.tip a.1)
    ∙ joined p.tip p.tip (highest p.tip ps) (omega arith) (highest_above p.tip ps)
