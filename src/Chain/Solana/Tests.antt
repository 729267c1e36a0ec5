-- ===== src/Chain/Solana/Tests.antt =====
-- Polls of the slot, one of which fails and one of which goes back.
use chain_indexer.Base.{ℕ, ◌≡◌, List, [], ◌∷◌, Option, none, some}
use chain_indexer.Chain.Solana.{poll_heads, slots_behind, highest, poll_heads-slots_behind}

abbrev answers : List (Option ℕ)
answers = some 4 ∷ none ∷ some 3 ∷ some 6 ∷ []

poll_heads-slots_behind_example : poll_heads answers 0 ≡ slots_behind 0 (highest 0 answers)
poll_heads-slots_behind_example = poll_heads-slots_behind answers 0
