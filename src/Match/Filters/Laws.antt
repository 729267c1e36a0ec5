-- ===== src/Match/Filters/Laws.antt =====
-- core/matcher/filters.py: when a filter map lets the arguments of an event pass.
use chain_indexer.Base.{
  ℕ, String, ◌≡◌, ◌↔◌, refl, Bool, true, false, not, ◌&&◌, Option, none, some, arith, ◌==◌,
  string_comparable, leb, if◌then◌else◌,
}
use text.Mathlib.TextEquality.{eq_iff}
use chain_indexer.Base.Int.{ℤ, pos, ltb_ℤ}
use chain_indexer.Base.Text.{lower, is_hex, is_hex-lower, decimal}
use chain_indexer.Parse.Value.{int, str, Fields, end, field, lookup_field, eq, to_int}
use chain_indexer.Parse.Value.Decimal.{to_int-decimal}
use chain_indexer.Match.Filters.{eq_op, gte_op, lte_op, norm, holds, entry, evaluate}

-- Every entry of the filter map is satisfied by the arguments.
abbrev pub Passes : Fields → Fields → Type 0
Passes end args = Unit
Passes (field key expected rest) args = (entry key expected args ≡ some true) × Passes rest args

-- `evaluate` lets the arguments pass exactly if every entry does; an exception or a missing field in
-- an entry that is reached means that they do not.
pub evaluate-Passes :
    (filters args : Fields) → (evaluate filters args ≡ some true) ↔ Passes filters args
unfolding evaluate
evaluate-Passes end args = ((λ _. tt), λ _. refl)
evaluate-Passes (field key expected rest) args =
    let (forth, back) = evaluate-Passes rest args in go (entry key expected args) forth back
  where
    go :
        (r : Option Bool)
        → (evaluate rest args ≡ some true → Passes rest args)
        → (Passes rest args → evaluate rest args ≡ some true)
        → ((elim r [ none ↦ none | some false ↦ some false | some true ↦ evaluate rest args ])
            ≡ some true)
          ↔ ((r ≡ some true) × Passes rest args)
    go none forth back = ((λ e. absurd (cc)), λ h. absurd (cc (h.0)))
    go (some false) forth back = ((λ e. absurd (cc)), λ h. absurd (cc (h.0)))
    go (some true) forth back = ((λ e. (refl, forth e)), λ h. back h.1)

-- Two texts are compared without regard to case if both start with `0x`, and exactly otherwise.
pub holds-str :
    (actual expected : String)
    → holds eq_op (str actual) (str expected)
      ≡ some (
          if is_hex actual && is_hex expected
          then lower actual == lower expected
          else actual == expected)
unfolding holds norm eq
holds-str actual expected = ground (
  arith,
  is_hex-lower actual,
  is_hex-lower expected,
  eq_iff actual expected,
  eq_iff (lower actual) expected,
  eq_iff actual (lower expected),
  eq_iff (lower actual) (lower expected),
)

-- An amount that a parser wrote as a decimal text is tested by its value.
holds-decimal :
    (n : ℕ) (bound : ℤ)
    → (holds gte_op (str (decimal n)) (int bound) ≡ some (not (ltb_ℤ (pos n) bound)))
      × (holds lte_op (str (decimal n)) (int bound) ≡ some (not (ltb_ℤ bound (pos n))))
unfolding holds
holds-decimal n bound = rw (to_int-decimal n) (unfold to_int in (refl, refl))

entry_bounds :
    (n : ℕ) (bound : ℤ) (args : Fields)
    → lookup_field "value" args ≡ some (str (decimal n))
    → (entry "value_gte" (int bound) args ≡ some (not (ltb_ℤ (pos n) bound)))
      × (entry "value_lte" (int bound) args ≡ some (not (ltb_ℤ bound (pos n))))
unfolding entry
entry_bounds n bound args e =
    let h = holds-decimal n bound in (rw (e, entry) h.0, rw (e, entry) h.1)

-- A filter on `value_gte` and `value_lte` lets an event whose `value` is the decimal text of an amount,
-- as the transfer parsers write it, pass exactly if the amount lies between the two bounds.
pub amount_range :
    (n lo hi : ℕ) (args : Fields)
    → lookup_field "value" args ≡ some (str (decimal n))
    → evaluate (field "value_gte" (int (pos lo)) (field "value_lte" (int (pos hi)) end)) args
      ≡ some (leb lo n && leb n hi)
unfolding evaluate
amount_range n lo hi args e =
    ground (arith, (entry_bounds n (pos lo) args e).0, (entry_bounds n (pos hi) args e).1)
