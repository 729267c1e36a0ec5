-- ===== src/Parse/Bytes.antt =====
-- Little-endian words in the data of Solana instructions: `struct.unpack("<Q", data[i:j])`.
pub mod Word
use chain_indexer.Base.{ℕ, zero, suc, ◌+◌, ◌*◌, List, [], ◌∷◌}

-- `data[:n]` and `data[n:]`
unfoldable pub take : ℕ → List ℕ → List ℕ
take zero bs = []
take (suc n) [] = []
take (suc n) (b ∷ bs) = b ∷ take n bs

unfoldable pub drop : ℕ → List ℕ → List ℕ
drop zero bs = bs
drop (suc n) [] = []
drop (suc n) (b ∷ bs) = drop n bs

unfoldable pub little_endian : List ℕ → ℕ
little_endian [] = 0
little_endian (b ∷ bs) = b + 256 * little_endian bs

-- The word of eight bytes at a place.
unfoldable pub u64_at : ℕ → List ℕ → ℕ
unfolding take drop little_endian
u64_at i bs = little_endian (take 8 (drop i bs))
