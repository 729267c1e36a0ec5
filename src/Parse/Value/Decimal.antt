-- ===== src/Parse/Value/Decimal.antt =====
-- `int(str(n))`: the parsers write amounts as decimal texts, and the filters read them back.
use mathlib.Core.List.{reverse-cons, reverse-reverse}
use chain_indexer.Base.{
  ℕ, zero, suc, ◌+◌, ◌-◌, ◌*◌, ◌/◌, ◌%◌, ◌≤◌, ◌<◌, String, ◌≡◌, refl, ap, ◌∙◌, Bool, true, false,
  some, List, [], ◌∷◌, reverse, arith, All, All-append, Bool-cases, inl, inr, ltb,
}
use chain_indexer.Base.Int.{pos}
use chain_indexer.Base.Text.{ascii, code-ascii, chars, decimal, digits_fuel}
use chain_indexer.Parse.Value.{str, skip_spaces, parse_digits, signed, parse_int, to_int}

abbrev IsDigit : ℕ → Type 0
IsDigit c = (48 ≤ c) × (c ≤ 57)

mod_ten-IsDigit : (n : ℕ) → IsDigit (48 + n % 10)
mod_ten-IsDigit n = omega arith

-- The text of a digit in front of a text.
chars-digit :
    (n : ℕ) (rest : String)
    → chars (String.◌∷◌ (ascii (48 + n % 10)) rest) ≡ (48 + n % 10) ∷ chars rest
unfolding chars
chars-digit n rest = rw (code-ascii (48 + n % 10) (omega arith)) refl

digits_fuel-IsDigit :
    (f n : ℕ) (rest : String)
    → All IsDigit (chars rest)
    → All IsDigit (chars (digits_fuel f n rest))
unfolding digits_fuel
digits_fuel-IsDigit zero n rest h = h
digits_fuel-IsDigit (suc f) n rest h =
    let more : All IsDigit (chars (String.◌∷◌ (ascii (48 + n % 10)) rest)) =
      rw (chars-digit n rest) (mod_ten-IsDigit n, h) in
    elim (Bool-cases (ltb n 10)) [
      | inl b ↦ rw b more
      | inr b ↦ rw b (digits_fuel-IsDigit f (n / 10) _ more)
    ]

-- Reading digits that were written in front of a text goes on with the number and that text.
parse_digits-digits_fuel :
    (f n : ℕ) (rest : String) (b : Bool)
    → n < f
    → parse_digits 0 b (chars (digits_fuel f n rest)) ≡ parse_digits n true (chars rest)
unfolding digits_fuel
parse_digits-digits_fuel zero n rest b h = absurd (omega arith)
parse_digits-digits_fuel (suc f) n rest b h = elim (Bool-cases (ltb n 10)) [
  | inl small ↦
      rw (small, chars-digit n rest)
        (read 0 (n % 10) b (omega arith)
          ∙ ap (λ k. parse_digits k true (chars rest)) (ground arith))
  | inr big ↦ rw big (
      parse_digits-digits_fuel f (n / 10) (String.◌∷◌ (ascii (48 + n % 10)) rest) b (ground arith)
      ∙ ap (parse_digits (n / 10) true) (chars-digit n rest)
      ∙ read (n / 10) (n % 10) true (omega arith)
      ∙ ap (λ k. parse_digits k true (chars rest)) (omega arith))
]
  where
    read :
        (acc d : ℕ) (b : Bool)
        → d < 10
        → parse_digits acc b ((48 + d) ∷ chars rest) ≡ parse_digits (acc * 10 + d) true (chars rest)
    read acc d b h =
        let back : 48 + d - 48 ≡ d = omega arith in unfold parse_digits in rw back (ground arith)

skip_spaces-digits : (cs : List ℕ) → All IsDigit cs → skip_spaces cs ≡ cs
unfolding skip_spaces
skip_spaces-digits [] h = refl
skip_spaces-digits (c ∷ cs) h = ground arith

reverse-IsDigit : (cs : List ℕ) → All IsDigit cs → All IsDigit (reverse cs)
reverse-IsDigit [] h = tt
reverse-IsDigit (c ∷ cs) h =
    rw (reverse-cons c cs)
      (All-append IsDigit (reverse cs) (c ∷ []) (reverse-IsDigit cs h.1) (h.0, tt))

signed-digits :
    (cs : List ℕ) (n : ℕ)
    → All IsDigit cs
    → parse_digits 0 false cs ≡ some n
    → signed cs ≡ some (pos n)
unfolding signed
signed-digits [] n h e = unfold parse_digits in absurd (cc e)
signed-digits (c ∷ cs) n h e = ground arith

-- Reading a number from its own decimal text gives the number back.
pub to_int-decimal : (n : ℕ) → to_int (str (decimal n)) ≡ some (pos n)
unfolding to_int parse_int decimal
to_int-decimal n =
    let cs = chars (digits_fuel (suc n) n "") in
    let ds = digits_fuel-IsDigit (suc n) n "" (unfold chars in tt) in
    rw
      (
        skip_spaces-digits cs ds,
        skip_spaces-digits (reverse cs) (reverse-IsDigit cs ds),
        reverse-reverse cs,
      )
      (signed-digits cs n ds (
        parse_digits-digits_fuel (suc n) n "" false (omega arith)
        ∙ unfold chars parse_digits in refl))
