-- ===== src/Base/Text.antt =====
-- Python texts as native strings, with the operations that the program uses on them. `lower` is
-- Python's `str.lower` on ASCII texts.
use Prim.Native.Nat.{ℕ, zero, suc, ◌+◌, ◌-◌, ◌*◌, ◌/◌, ◌%◌, ◌<◌, compare, Ordering}
use Prim.Native.Char.{Char, char, code, IsScalar}
use Prim.Native.String.{String}
use mathlib.Core.Path.{◌≡◌, refl, ap, ap₂}
use mathlib.Core.Bool.{Bool, true, false, ◌&&◌}
use mathlib.Core.List.{List, [], ◌∷◌}
use mathlib.Core.Option.{Option, none, some}
use mathlib.Core.Logic.{dite, dif_pos}
use native.Mathlib.Bridge.{le_prop}
use native.Mathlib.Decide.{dec_lt}
use native.Mathlib.Omega.{arith}
use text.Mathlib.TextEquality.{Char-path}
use chain_indexer.Base.Tests.{if◌then◌else◌, ◌==◌, nat_comparable, string_comparable, leb, ltb}

small-IsScalar : (n : ℕ) → n < 128 → IsScalar n
small-IsScalar n h = let e : compare n 55296 ≡ Ordering.lt = ground arith in rw e tt

-- The character with an ASCII number; U+0000 above.
unfoldable pub ascii : ℕ → Char
unfolding small-IsScalar dec_lt
ascii n = dite (dec_lt n 128) (λ h. char n (small-IsScalar n h)) (λ _. char 0 tt)

pub code-ascii : (n : ℕ) → n < 128 → code (ascii n) ≡ n
unfolding ascii
code-ascii n h = rw (dif_pos (dec_lt n 128) le_prop h)

unfoldable pub lower_char : Char → Char
lower_char c = if leb 65 (code c) && leb (code c) 90 then ascii (code c + 32) else c

code-lower_char :
    (c : Char)
    → code (lower_char c) ≡ (if leb 65 (code c) && leb (code c) 90 then code c + 32 else code c)
unfolding lower_char
code-lower_char c = ground (arith, code-ascii (code c + 32))

lower_char_idem : (c : Char) → lower_char (lower_char c) ≡ lower_char c
lower_char_idem c =
    Char-path (lower_char (lower_char c)) (lower_char c)
      (ground (arith, code-lower_char c, code-lower_char (lower_char c)))

-- `s.lower()`
unfoldable pub lower : String → String
unfolding lower_char
lower String.[] = String.[]
lower (String.◌∷◌ c s) = String.◌∷◌ (lower_char c) (lower s)

lower_runs : lower "0xAbC" ≡ "0xabc"
unfolding lower ascii
lower_runs = refl

pub lower_idem : (s : String) → lower (lower s) ≡ lower s
unfolding lower
lower_idem String.[] = refl
lower_idem (String.◌∷◌ c s) = ap₂ String.◌∷◌ (lower_char_idem c) (lower_idem s)

-- `len(s)`
unfoldable pub length : String → ℕ
length String.[] = 0
length (String.◌∷◌ c s) = suc (length s)

-- `s[:n]`
unfoldable pub take : ℕ → String → String
take zero s = String.[]
take (suc n) String.[] = String.[]
take (suc n) (String.◌∷◌ c s) = String.◌∷◌ c (take n s)

-- `s[n:]`
unfoldable pub drop : ℕ → String → String
drop zero s = s
drop (suc n) String.[] = String.[]
drop (suc n) (String.◌∷◌ c s) = drop n s

-- `s.startswith(p)`
unfoldable pub starts_with : String → String → Bool
starts_with s String.[] = true
starts_with String.[] (String.◌∷◌ d p) = false
starts_with (String.◌∷◌ c s) (String.◌∷◌ d p) = code c == code d && starts_with s p

-- `s.endswith(p)`
unfoldable pub ends_with : String → String → Bool
unfolding length drop
ends_with s p = leb (length p) (length s) && drop (length s - length p) s == p

-- `s.removeprefix(p)`
unfoldable pub remove_prefix : String → String → String
unfolding starts_with length drop
remove_prefix s p = if starts_with s p then drop (length p) s else s

pub length-lower : (s : String) → length (lower s) ≡ length s
unfolding length lower
length-lower String.[] = refl
length-lower (String.◌∷◌ c s) = ap suc (length-lower s)

-- The characters of a text, first to last.
unfoldable pub chars : String → List ℕ
chars String.[] = []
chars (String.◌∷◌ c s) = code c ∷ chars s

-- The value of one digit of `int(s, 16)`.
unfoldable pub hex_digit : ℕ → Option ℕ
hex_digit c =
    if leb 48 c && leb c 57
    then some (c - 48)
    else if leb 97 c && leb c 102
    then some (c - 87)
    else if leb 65 c && leb c 70
    then some (c - 55)
    else none

-- `int(s, 16)` on a text of digits only; `none` is the ValueError.
unfoldable pub hex_value : ℕ → List ℕ → Option ℕ
unfolding hex_digit
hex_value acc [] = some acc
hex_value acc (c ∷ cs) = elim (hex_digit c) [ none ↦ none | some d ↦ hex_value (acc * 16 + d) cs ]

-- `str(n)` of a natural number: the digits, on fuel.
unfoldable pub digits_fuel : ℕ → ℕ → String → String
digits_fuel zero n rest = rest
digits_fuel (suc f) n rest =
    let rest' = String.◌∷◌ (ascii (48 + n % 10)) rest in
    let more = digits_fuel f (n / 10) rest' in if ltb n 10 then rest' else more

unfoldable pub decimal : ℕ → String
decimal n = digits_fuel (suc n) n ""

decimal_runs : decimal 1207 ≡ "1207"
unfolding decimal digits_fuel ascii
decimal_runs = refl

-- What `str(n)` is made of, one digit at a time from the right.
pub chars-digits_fuel :
    (f n : ℕ) (rest : String)
    → chars (digits_fuel (suc f) n rest) ≡ (
        if ltb n 10
        then (48 + n % 10) ∷ chars rest
        else chars (digits_fuel f (n / 10) (String.◌∷◌ (ascii (48 + n % 10)) rest)))
unfolding digits_fuel chars
chars-digits_fuel f n rest = ground (arith, code-ascii (48 + n % 10))

pub lower_char_id : (c : Char) → (leb 65 (code c) && leb (code c) 90) ≡ false → lower_char c ≡ c
unfolding lower_char
lower_char_id c h = rw h refl

-- `s.startswith("0x")`
abbrev pub is_hex : String → Bool
is_hex s = starts_with s "0x"

pub is_hex-lower : (s : String) → is_hex s ≡ true → is_hex (lower s) ≡ true
unfolding starts_with lower
is_hex-lower String.[] h = h
is_hex-lower (String.◌∷◌ c String.[]) h = absurd (ground arith)
is_hex-lower (String.◌∷◌ c (String.◌∷◌ d s)) h =
    ground (arith, code-lower_char c, code-lower_char d)
