-- ===== src/Chain/Evm/Heads/Tests.antt =====
-- A node whose tip goes from 3 to 5 and back to 4.
use chain_indexer.Base.{ℕ, ◌≡◌, refl, some, none, [], ◌∷◌, map}
use chain_indexer.Chain.Types.{BlockHeader}
use chain_indexer.Run.Catchup.{blocks_from}
use chain_indexer.Chain.Evm.Heads.{Poll, Answers, poll_heads, poll_heads-blocks_from}

abbrev header : ℕ → BlockHeader
header n = record { number = n; hash = "0x"; parent_hash = "0x"; timestamp = n }

abbrev poll : ℕ → Poll
poll n = record { tip = n; get_block = λ bn. some (header bn) }

poll-Answers : (n : ℕ) → Answers (poll n)
poll-Answers n bn = (header bn, refl, refl)

poll_heads-blocks_from_example :
    map (λ h. h.number) (poll_heads (poll 3 ∷ poll 5 ∷ poll 4 ∷ []) none) ≡ 3 ∷ 4 ∷ 5 ∷ []
unfolding blocks_from
poll_heads-blocks_from_example =
    poll_heads-blocks_from (poll 3) (poll 5 ∷ poll 4 ∷ [])
      (poll-Answers 3, (poll-Answers 5, (poll-Answers 4, tt)))
