-- ===== src/Chain/Solana.antt =====
-- `_poll_heads` and `_ws_heads` of core/chains/solana.py: the slots that are yielded over several polls, or
-- over several messages of a web socket.
mod Tests
use chain_indexer.Base.{
  ℕ, zero, suc, ◌+◌, ◌-◌, ◌≤◌, ◌<◌, max, ◌≡◌, refl, sym, subst, ap, ◌∙◌, Bool, true, false, Option,
  none, some, List, [], ◌∷◌, ◌++◌, ltb, arith, Bool-cases, inl, inr,
}
use mathlib.Core.Path.{ap₂}
use chain_indexer.Run.Catchup.{blocks_from}
use chain_indexer.Run.Catchup.Windows.{blocks_from-add, no_blocks}

-- The slots behind the last one, up to the current slot.
abbrev pub slots_behind : ℕ → ℕ → List ℕ
slots_behind last_slot current = blocks_from (current + 1 - (last_slot + 1)) (last_slot + 1)

-- The answers to the polls, or the slots of the messages: `none` where the poll failed, and where the
-- message has no slot or the connection is made again.
unfoldable pub poll_heads : List (Option ℕ) → ℕ → List ℕ
unfolding blocks_from
poll_heads [] last_slot = []
poll_heads (none ∷ answers) last_slot = poll_heads answers last_slot
poll_heads (some current ∷ answers) last_slot = elim (ltb last_slot current) [
  | true ↦ slots_behind last_slot current ++ poll_heads answers current
  | false ↦ poll_heads answers last_slot
]

-- The highest slot.
abbrev pub highest : ℕ → List (Option ℕ) → ℕ
highest n [] = n
highest n (none ∷ answers) = highest n answers
highest n (some current ∷ answers) = highest (max n current) answers

highest_above : (n : ℕ) (answers : List (Option ℕ)) → n ≤ highest n answers
highest_above n [] = omega arith
highest_above n (none ∷ answers) = highest_above n answers
highest_above n (some current ∷ answers) =
    let k = highest_above (max n current) answers in ground (arith, k)

joined :
    (last current top : ℕ)
    → last ≤ current
    → current ≤ top
    → slots_behind last current ++ slots_behind current top ≡ slots_behind last top
joined last current top h k =
    let next : current + 1 ≡ last + 1 + (current + 1 - (last + 1)) = omega arith in
    let total : (current + 1 - (last + 1)) + (top + 1 - (current + 1)) ≡ top + 1 - (last + 1) =
      omega arith in
    ap (λ n. slots_behind last current ++ blocks_from (top + 1 - (current + 1)) n) next
    ∙ sym (blocks_from-add (current + 1 - (last + 1)) (top + 1 - (current + 1)) (last + 1))
    ∙ ap (λ n. blocks_from n (last + 1)) total

-- Whatever the polls and messages answer, and however often they fail, the slots behind the last one up to
-- the highest are yielded, each once and in order.
pub poll_heads-slots_behind :
    (answers : List (Option ℕ)) (last_slot : ℕ)
    → poll_heads answers last_slot ≡ slots_behind last_slot (highest last_slot answers)
unfolding poll_heads
poll_heads-slots_behind [] last_slot =
    sym (no_blocks (last_slot + 1 - (last_slot + 1)) (last_slot + 1) (omega arith))
poll_heads-slots_behind (none ∷ answers) last_slot = poll_heads-slots_behind answers last_slot
poll_heads-slots_behind (some current ∷ answers) last_slot =
    elim (Bool-cases (ltb last_slot current)) [
      | inr b ↦
          let same : last_slot ≡ max last_slot current = ground arith in
          rw (b, poll_heads)
            (poll_heads-slots_behind answers last_slot
              ∙ ap (λ m. slots_behind last_slot (highest m answers)) same)
      | inl b ↦
          let same : current ≡ max last_slot current = ground arith in
          rw (b, poll_heads)
            (ap (λ l. slots_behind last_slot current ++ l) (poll_heads-slots_behind answers current)
              ∙ joined last_slot current (highest current answers) (ground arith)
                  (highest_above current answers)
              ∙ ap (λ m. slots_behind last_slot (highest m answers)) same)
    ]
