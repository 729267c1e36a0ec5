-- ===== src/Parse/Hex/Word.antt =====
-- `int(s, 16)` of a word of hexadecimal digits.
use native.Mathlib.Omega.{pow_step}
use mathlib.Core.List.{reverse-cons, reverse-reverse}
use chain_indexer.Base.{
  ℕ, zero, suc, ◌+◌, ◌*◌, ◌/◌, ◌%◌, ◌^◌, ◌≤◌, ◌<◌, String, ◌≡◌, ◌⊎◌, refl, sym, ap, ◌∙◌, Bool, true,
  false, some, List, [], ◌∷◌, reverse, All, All-append, arith, ltb, if◌then◌else◌, Bool-cases, inl,
  inr,
}
use chain_indexer.Base.Int.{pos}
use chain_indexer.Base.Text.{ascii, code-ascii, chars, hex_digit}
use chain_indexer.Parse.Value.{skip_spaces, is_space}
use chain_indexer.Parse.Hex.{parse_hex_digits, skip_prefix, parse_hex_body, signed_hex, parse_hex}

abbrev nibble : ℕ → ℕ
nibble d = if ltb d 10 then 48 + d else 87 + d

-- The last `k` hexadecimal digits of a number, in front of a text.
unfoldable pub hex_word : ℕ → ℕ → String → String
hex_word zero n rest = rest
hex_word (suc k) n rest = hex_word k (n / 16) (String.◌∷◌ (ascii (nibble (n % 16))) rest)

abbrev IsHex : ℕ → Type 0
IsHex c = ((48 ≤ c) × (c ≤ 57)) ⊎ ((97 ≤ c) × (c ≤ 102))

nibble-IsHex : (d : ℕ) → d < 16 → IsHex (nibble d)
nibble-IsHex d h = elim (Bool-cases (ltb d 10)) [
  | inl b ↦ rw b (inl (omega arith, ground arith))
  | inr b ↦ rw b (inr (ground arith, omega arith))
]

hex_digit-nibble : (d : ℕ) → d < 16 → hex_digit (nibble d) ≡ some d
unfolding hex_digit
hex_digit-nibble d h = ground arith

chars-nibble :
    (n : ℕ) (rest : String)
    → chars (String.◌∷◌ (ascii (nibble (n % 16))) rest) ≡ nibble (n % 16) ∷ chars rest
unfolding chars
chars-nibble n rest =
    let small : nibble (n % 16) < 128 = ground arith in rw (code-ascii (nibble (n % 16)) small) refl

hex_word-IsHex :
    (k n : ℕ) (rest : String) → All IsHex (chars rest) → All IsHex (chars (hex_word k n rest))
unfolding hex_word
hex_word-IsHex zero n rest h = h
hex_word-IsHex (suc k) n rest h =
    hex_word-IsHex k (n / 16) _ (rw (chars-nibble n rest) (nibble-IsHex (n % 16) (omega arith), h))

read_digit :
    (acc d : ℕ) (b : Bool) (c : ℕ) (cs : List ℕ)
    → hex_digit c ≡ some d
    → parse_hex_digits acc b (c ∷ cs) ≡ parse_hex_digits (acc * 16 + d) true cs
unfolding parse_hex_digits
read_digit acc d b c cs e = rw (e, parse_hex_digits) refl

read :
    (acc n : ℕ) (b : Bool) (rest : String)
    → parse_hex_digits acc b (chars (String.◌∷◌ (ascii (nibble (n % 16))) rest))
      ≡ parse_hex_digits (acc * 16 + n % 16) true (chars rest)
read acc n b rest = rw (chars-nibble n rest) (
    read_digit acc (n % 16) b (nibble (n % 16)) (chars rest)
      (hex_digit-nibble (n % 16) (omega arith)))

div_lt : (n m : ℕ) → n < 16 * m → n / 16 < m
div_lt n m h = omega arith

parse_hex_digits-hex_word :
    (k n : ℕ) (b : Bool) (rest : String)
    → n < 16 ^ suc k
    → parse_hex_digits 0 b (chars (hex_word (suc k) n rest)) ≡ parse_hex_digits n true (chars rest)
unfolding hex_word
parse_hex_digits-hex_word zero n b rest h =
    read 0 n b rest ∙ ap (λ m. parse_hex_digits m true (chars rest)) (omega arith)
parse_hex_digits-hex_word (suc k) n b rest h =
    let low : n / 16 < 16 ^ suc k = div_lt n (16 ^ suc k) (rw (sym (pow_step 16 (suc k))) h) in
    parse_hex_digits-hex_word k (n / 16) b (String.◌∷◌ (ascii (nibble (n % 16))) rest) low
    ∙ read (n / 16) n true rest
    ∙ ap (λ m. parse_hex_digits m true (chars rest)) (omega arith)

skip_spaces-IsHex : (cs : List ℕ) → All IsHex cs → skip_spaces cs ≡ cs
unfolding skip_spaces is_space
skip_spaces-IsHex [] h = refl
skip_spaces-IsHex (c ∷ cs) h = ground (arith, h.0)

reverse-IsHex : (cs : List ℕ) → All IsHex cs → All IsHex (reverse cs)
reverse-IsHex [] h = tt
reverse-IsHex (c ∷ cs) h =
    rw (reverse-cons c cs) (All-append IsHex (reverse cs) (c ∷ []) (reverse-IsHex cs h.1) (h.0, tt))

signed_hex-IsHex :
    (cs : List ℕ) (n : ℕ)
    → All IsHex cs
    → parse_hex_digits 0 false cs ≡ some n
    → signed_hex cs ≡ some (pos n)
unfolding signed_hex parse_hex_body skip_prefix
signed_hex-IsHex [] n h e = unfold parse_hex_digits in absurd (cc e)
signed_hex-IsHex (c ∷ []) n h e = ground (arith, h.0)
signed_hex-IsHex (c ∷ d ∷ cs) n h e = ground (arith, h.0, h.1.0)

-- Reading a number below 16 ^ k from its k digits gives the number back.
pub parse_hex-hex_word :
    (k n : ℕ) → n < 16 ^ suc k → parse_hex (chars (hex_word (suc k) n "")) ≡ some (pos n)
unfolding parse_hex
parse_hex-hex_word k n h =
    let cs = chars (hex_word (suc k) n "") in
    let ds = hex_word-IsHex (suc k) n "" (unfold chars in tt) in
    rw
      (
        skip_spaces-IsHex (reverse cs) (reverse-IsHex cs ds),
        reverse-reverse cs,
        skip_spaces-IsHex cs ds,
      )
      (signed_hex-IsHex cs n ds
        (parse_hex_digits-hex_word k n false "" h ∙ unfold chars parse_hex_digits in refl))
