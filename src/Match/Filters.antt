-- ===== src/Match/Filters.antt =====
-- core/matcher/filters.py: the filters on the arguments of an event.
pub mod Laws
use chain_indexer.Base.{
  ℕ, ◌+◌, ◌-◌, String, Bool, true, false, not, ◌&&◌, ◌||◌, Option, none, some, List, [], ◌∷◌, ◌==◌,
  string_comparable, leb, if◌then◌else◌, any,
}
use chain_indexer.Base.Int.{ltb_ℤ, pos}
use chain_indexer.Base.Text
use chain_indexer.Base.Text.{lower, starts_with, ends_with, take}
use chain_indexer.Parse.Value.{
  Value, null, bool, int, str, bytes, list, tuple, dict, Values, nil, cons, Fields, end, field,
  lookup_field, eq, is_hashable, are_hashable, to_int,
}

pub data Op : Type 0 where
  eq_op in_op gte_op lte_op : Op

-- `key[: -len(s)]`
cut : String → String → String
cut key suffix = take (Text.length key - Text.length suffix) key

unfoldable pub split : String → String × Op
unfolding ends_with cut take
split key =
    if ends_with key "_in"
    then (cut key "_in", in_op)
    else if ends_with key "_gte"
    then (cut key "_gte", gte_op)
    else if ends_with key "_lte"
    then (cut key "_lte", lte_op)
    else (key, eq_op)

abbrev pub norm_str : String → String
norm_str s = if starts_with s "0x" then lower s else s

unfoldable pub norm : Value → Value
norm (str s) = str (norm_str s)
norm v = v

abbrev typo_suffixes : List String
typo_suffixes = "_eq" ∷ "_ne" ∷ "_gt" ∷ "_lt" ∷ "_ge" ∷ "_le" ∷ "_neq" ∷ "_like" ∷ []

abbrev operator_suffixes : List String
operator_suffixes = "_in" ∷ "_gte" ∷ "_lte" ∷ []

-- The key at which a FilterError is raised, if there is one.
unfoldable pub validate : Fields → Option String
unfolding ends_with
validate end = none
validate (field k v fs) =
    let rest = validate fs in
    if any (ends_with k) operator_suffixes
    then rest
    else if any (ends_with k) typo_suffixes
    then some k
    else rest

chars_of : String → Values
chars_of String.[] = nil
chars_of (String.◌∷◌ c s) = cons (str (String.◌∷◌ c String.[])) (chars_of s)

ints_of : List ℕ → Values
ints_of [] = nil
ints_of (b ∷ bs) = cons (int (pos b)) (ints_of bs)

keys_of : Fields → Values
keys_of end = nil
keys_of (field k v fs) = cons (str k) (keys_of fs)

-- What `for v in expected` runs through; `none` is the TypeError.
unfoldable pub iterate : Value → Option Values
unfolding chars_of ints_of keys_of
iterate (list vs) = some vs
iterate (tuple vs) = some vs
iterate (str s) = some (chars_of s)
iterate (bytes bs) = some (ints_of bs)
iterate (dict fs) = some (keys_of fs)
iterate v = none

unfoldable pub norm_all : Values → Values
unfolding norm
norm_all nil = nil
norm_all (cons v vs) = cons (norm v) (norm_all vs)

unfoldable pub member : Value → Values → Bool
member v nil = false
member v (cons w ws) = eq v w || member v ws

-- `_norm(actual) not in {_norm(v) for v in expected}`, where unhashable values raise.
unfoldable pub is_in : Value → Value → Option Bool
unfolding iterate norm_all norm member
is_in actual expected = elim (iterate expected) [
  | none ↦ none
  | some vs ↦
      if are_hashable (norm_all vs) && is_hashable (norm actual)
      then some (member (norm actual) (norm_all vs))
      else none
]

abbrev both {ℓ} : {A B : Type ℓ} → (A → A → B) → Option A → Option A → Option B
both f none o = none
both f (some a) none = none
both f (some a) (some b) = some (f a b)

-- One entry against the argument that it names; `none` is an exception.
unfoldable pub holds : Op → Value → Value → Option Bool
unfolding is_in norm
holds eq_op actual expected = some (eq (norm actual) (norm expected))
holds in_op actual expected = is_in actual expected
holds gte_op actual expected = both (λ a e. not (ltb_ℤ a e)) (to_int actual) (to_int expected)
holds lte_op actual expected = both (λ a e. not (ltb_ℤ e a)) (to_int actual) (to_int expected)

-- A field that is missing fails the entry.
unfoldable pub entry : String → Value → Fields → Option Bool
unfolding split holds
entry key expected args =
    let (name, op) = split key in
    elim (lookup_field name args) [ none ↦ some false | some actual ↦ holds op actual expected ]

unfoldable pub evaluate : Fields → Fields → Option Bool
unfolding entry
evaluate end args = some true
evaluate (field key expected rest) args = elim (entry key expected args) [
  | none ↦ none
  | some false ↦ some false
  | some true ↦ evaluate rest args
]
