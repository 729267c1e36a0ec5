-- ===== src/Parse/Hex.antt =====
-- `int(s, 16)` and `str(n)` of Python, for the hexadecimal words of EVM logs.
pub mod Word
use chain_indexer.Base.{
  ℕ, suc, ◌+◌, ◌*◌, ◌&&◌, ◌||◌, Bool, true, false, String, Option, none, some, List, [], ◌∷◌,
  reverse, ◌==◌, nat_comparable, if◌then◌else◌,
}
use chain_indexer.Base.Int.{ℤ, pos, negsuc}
use chain_indexer.Base.Text.{ascii, hex_digit, decimal}
use chain_indexer.Parse.Value.{skip_spaces, negate}
use mathlib.Core.Option

-- Hexadecimal digits, with single underscores between them; `after_digit` says what came before.
unfoldable pub parse_hex_digits : ℕ → Bool → List ℕ → Option ℕ
unfolding hex_digit
parse_hex_digits acc after_digit [] = if after_digit then some acc else none
parse_hex_digits acc after_digit (c ∷ cs) =
    let gap = parse_hex_digits acc false cs in
    elim (hex_digit c) [
      | none ↦ if (c == 95) && after_digit then gap else none
      | some d ↦ parse_hex_digits (acc * 16 + d) true cs
    ]

-- After `0x` or `0X`, an underscore may stand.
unfoldable pub skip_prefix : List ℕ → List ℕ × Bool
skip_prefix (a ∷ b ∷ cs) =
    if (a == 48) && ((b == 120) || (b == 88)) then (cs, true) else (a ∷ b ∷ cs, false)
skip_prefix cs = (cs, false)

unfoldable pub parse_hex_body : List ℕ → Option ℕ
unfolding skip_prefix
parse_hex_body cs = let (body, prefixed) = skip_prefix cs in go body prefixed
  where
    go : List ℕ → Bool → Option ℕ
    go [] prefixed = none
    go (c ∷ cs) prefixed =
        if (c == 95) && prefixed
        then parse_hex_digits 0 false cs
        else parse_hex_digits 0 false (c ∷ cs)

unfoldable pub signed_hex : List ℕ → Option ℤ
unfolding parse_hex_body negate
signed_hex [] = none
signed_hex (c ∷ cs) =
    if c == 45
    then Option.map negate (parse_hex_body cs)
    else if c == 43
    then Option.map pos (parse_hex_body cs)
    else Option.map pos (parse_hex_body (c ∷ cs))

-- `int(s, 16)` of a text, by its code points, if they are ASCII; `none` is the ValueError.
unfoldable pub parse_hex : List ℕ → Option ℤ
unfolding signed_hex skip_spaces
parse_hex cs = signed_hex (skip_spaces (reverse (skip_spaces (reverse cs))))

-- `str(n)`
abbrev pub decimal_ℤ : ℤ → String
decimal_ℤ (pos n) = decimal n
decimal_ℤ (negsuc n) = String.◌∷◌ (ascii 45) (decimal (suc n))
