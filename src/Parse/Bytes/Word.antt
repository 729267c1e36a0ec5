-- ===== src/Parse/Bytes/Word.antt =====
-- The round trip of a little-endian word of eight bytes.
use chain_indexer.Base.{
  ℕ, zero, suc, ◌+◌, ◌*◌, ◌/◌, ◌%◌, ◌^◌, ◌<◌, ◌≡◌, sym, ap, ◌∙◌, List, [], ◌∷◌, ◌++◌, arith,
}
use native.Mathlib.Omega.{pow_step}
use chain_indexer.Parse.Bytes.{take, little_endian, u64_at}

-- `n` in `k` bytes, the low byte first.
abbrev pub bytes_of : ℕ → ℕ → List ℕ
bytes_of zero n = []
bytes_of (suc k) n = n % 256 ∷ bytes_of k (n / 256)

div_lt : (n m : ℕ) → n < 256 * m → n / 256 < m
div_lt n m h = omega arith

little_endian-bytes_of :
    (k n : ℕ) (rest : List ℕ) → n < 256 ^ k → little_endian (take k (bytes_of k n ++ rest)) ≡ n
unfolding little_endian take
little_endian-bytes_of zero n rest h = omega arith
little_endian-bytes_of (suc k) n rest h =
    let low : n / 256 < 256 ^ k = div_lt n (256 ^ k) (rw (sym (pow_step 256 k)) h) in
    ap (λ m. n % 256 + 256 * m) (little_endian-bytes_of k (n / 256) rest low) ∙ omega arith

pub u64_at-bytes_of : (n : ℕ) (rest : List ℕ) → n < 2 ^ 64 → u64_at 0 (bytes_of 8 n ++ rest) ≡ n
unfolding u64_at
u64_at-bytes_of n rest h = little_endian-bytes_of 8 n rest h
