-- ===== src/Parse/Value.antt =====
-- The Python values in the arguments of an event and in the filters of a subscription: those of JSON
-- without floats, and the bytes and tuples that the ABI decoders leave.
pub mod Decimal
use chain_indexer.Base.{
  ℕ, zero, suc, ◌+◌, ◌-◌, ◌*◌, Bool, true, false, ◌&&◌, ◌||◌, Option, none, some, List, [], ◌∷◌,
  String, reverse, leb, ◌==◌, nat_comparable, string_comparable, if◌then◌else◌,
}
use chain_indexer.Base.Int.{ℤ, pos, negsuc}
use mathlib.Core.Option
use chain_indexer.Base.Text.{chars}

mutual
  pub data Value : Type 0 where
    null : Value
    bool : Bool → Value
    int : ℤ → Value
    str : String → Value
    bytes : List ℕ → Value
    list : Values → Value
    tuple : Values → Value
    dict : Fields → Value

  pub data Values : Type 0 where
    nil : Values
    cons : Value → Values → Values

  pub data Fields : Type 0 where
    end : Fields
    field : String → Value → Fields → Fields

abbrev pub int_beq : ℤ → ℤ → Bool
int_beq (pos a) (pos b) = a == b
int_beq (negsuc a) (negsuc b) = a == b
int_beq a b = false

abbrev pub bytes_beq : List ℕ → List ℕ → Bool
bytes_beq [] [] = true
bytes_beq (a ∷ as') (b ∷ bs) = (a == b) && bytes_beq as' bs
bytes_beq as' bs = false

-- A bool is an int in Python.
abbrev pub bool_int : Bool → ℤ
bool_int true = pos 1
bool_int false = pos 0

unfoldable pub lookup_field : String → Fields → Option Value
lookup_field k end = none
lookup_field k (field j v fs) = if k == j then some v else lookup_field k fs

pub size : Fields → ℕ
size end = 0
size (field k v fs) = suc (size fs)

-- Python's `==`. Two dicts are equal if they have as many keys and agree at those of the first.
unfoldable mutual
  pub eq : Value → Value → Bool
  eq null null = true
  eq (bool a) (bool b) = int_beq (bool_int a) (bool_int b)
  eq (bool a) (int b) = int_beq (bool_int a) b
  eq (int a) (bool b) = int_beq a (bool_int b)
  eq (int a) (int b) = int_beq a b
  eq (str a) (str b) = a == b
  eq (bytes a) (bytes b) = bytes_beq a b
  eq (list xs) (list ys) = eq_values xs ys
  eq (tuple xs) (tuple ys) = eq_values xs ys
  eq (dict xs) (dict ys) = (size xs == size ys) && eq_fields xs ys
  eq v w = false

  pub eq_values : Values → Values → Bool
  eq_values nil nil = true
  eq_values (cons x xs) (cons y ys) = eq x y && eq_values xs ys
  eq_values xs ys = false

  pub eq_fields : Fields → Fields → Bool
  eq_fields end ys = true
  eq_fields (field k v fs) ys = elim (lookup_field k ys) [
    | none ↦ false
    | some w ↦ eq v w && eq_fields fs ys
  ]

-- What may stand in a set.
unfoldable mutual
  pub is_hashable : Value → Bool
  is_hashable (list xs) = false
  is_hashable (dict fs) = false
  is_hashable (tuple xs) = are_hashable xs
  is_hashable v = true

  pub are_hashable : Values → Bool
  are_hashable nil = true
  are_hashable (cons x xs) = is_hashable x && are_hashable xs

unfoldable pub is_space : ℕ → Bool
is_space c = (c == 32) || (leb 9 c && leb c 13) || (leb 28 c && leb c 31)

unfoldable pub skip_spaces : List ℕ → List ℕ
unfolding is_space
skip_spaces [] = []
skip_spaces (c ∷ cs) = if is_space c then skip_spaces cs else c ∷ cs

-- Digits, with single underscores between them; `after_digit` says what came before.
unfoldable pub parse_digits : ℕ → Bool → List ℕ → Option ℕ
parse_digits acc after_digit [] = if after_digit then some acc else none
parse_digits acc after_digit (c ∷ cs) =
    let more = parse_digits (acc * 10 + (c - 48)) true cs in
    let gap = parse_digits acc false cs in
    if leb 48 c && leb c 57 then more else if (c == 95) && after_digit then gap else none

unfoldable pub negate : ℕ → ℤ
negate zero = pos 0
negate (suc n) = negsuc n

unfoldable pub signed : List ℕ → Option ℤ
unfolding parse_digits negate
signed [] = none
signed (c ∷ cs) =
    if c == 45
    then Option.map negate (parse_digits 0 false cs)
    else if c == 43
    then Option.map pos (parse_digits 0 false cs)
    else Option.map pos (parse_digits 0 false (c ∷ cs))

-- `int(s)` of a text, by its code points, if they are ASCII; `none` is the ValueError.
unfoldable pub parse_int : List ℕ → Option ℤ
unfolding signed skip_spaces
parse_int cs = signed (reverse (skip_spaces (reverse (skip_spaces cs))))

-- `int(v)`; `none` is a ValueError or a TypeError.
unfoldable pub to_int : Value → Option ℤ
unfolding parse_int
to_int (bool b) = some (bool_int b)
to_int (int n) = some n
to_int (str s) = parse_int (chars s)
to_int (bytes bs) = parse_int bs
to_int v = none
