-- ===== src/Base/Tests.antt =====
-- Boolean tests, the conditional, and equality tests as an interface.
use Prim.Native.Nat.{ℕ, ◌≤◌, ◌<◌, compare, Ordering}
use Prim.Native.String.{String}
use mathlib.Core.Path.{◌≡◌, refl, ap, ap₂, subst}
use mathlib.Core.Logic.{◌↔◌, ◌⊎◌, inl, inr}
use mathlib.Core.Bool.{Bool, true, false, ◌&&◌}
use mathlib.Core.Option.{Option, none, some}
use text.Mathlib.Text.{◌==◌ as text_beq}
use text.Mathlib.TextEquality.{eq_iff}
use native.Mathlib.Omega.{arith}

abbrev pub ltb : ℕ → ℕ → Bool
ltb a b = elim (compare a b) [ Ordering.lt ↦ true | _ ↦ false ]

abbrev pub leb : ℕ → ℕ → Bool
leb a b = elim (compare a b) [ Ordering.gt ↦ false | _ ↦ true ]

abbrev pub nat_beq : ℕ → ℕ → Bool
nat_beq a b = elim (compare a b) [ Ordering.eq ↦ true | _ ↦ false ]

infix 1 if◌then◌else◌
abbrev pub if◌then◌else◌ {ℓ} : {A : Type ℓ} → Bool → A → A → A
if true then x else y = x
if false then x else y = y

pub nat_beq_iff : (a b : ℕ) → (nat_beq a b ≡ true) ↔ (a ≡ b)
nat_beq_iff a b = ground arith

pub leb→le : (a b : ℕ) → leb a b ≡ true → a ≤ b
leb→le a b h = ground arith

pub le→leb : (a b : ℕ) → a ≤ b → leb a b ≡ true
le→leb a b h = ground arith

pub leb→gt : (a b : ℕ) → leb a b ≡ false → b < a
leb→gt a b h = ground arith

pub gt→leb : (a b : ℕ) → b < a → leb a b ≡ false
gt→leb a b h = ground arith

-- The types whose values the program compares by Python's equality. It is decided by a Boolean test
-- that agrees with the paths.
pub record Comparable {ℓ} (T : Type ℓ) : Type ℓ where
  pub same : T → T → Bool
  pub same_iff : (x y : T) → (same x y ≡ true) ↔ (x ≡ y)

instance abbrev pub string_comparable : Comparable String
string_comparable = record { same_iff = eq_iff; same = text_beq }

instance abbrev pub nat_comparable : Comparable ℕ
nat_comparable = record { same_iff = nat_beq_iff; same = nat_beq }

infix 50 ◌==◌
abbrev pub ◌==◌ {ℓ} : {T : Type ℓ} → ⦃c : Comparable T⦄ → T → T → Bool
◌==◌ {T} ⦃c⦄ x y = c.same x y

pub Bool-cases : (b : Bool) → (b ≡ true) ⊎ (b ≡ false)
Bool-cases true = inl refl
Bool-cases false = inr refl

pub Option-cases {ℓ} : {A : Type ℓ} (o : Option A) → (o ≡ none) ⊎ ((a : A) × (o ≡ some a))
Option-cases none = inl refl
Option-cases (some a) = inr (a, refl)

pub ==→≡ {ℓ} : {T : Type ℓ} ⦃c : Comparable T⦄ {x y : T} → (x == y) ≡ true → x ≡ y
==→≡ {T} ⦃c⦄ {x} {y} h = (c.same_iff x y).0 h

pub ==_refl {ℓ} : {T : Type ℓ} ⦃c : Comparable T⦄ (x : T) → (x == x) ≡ true
==_refl {T} ⦃c⦄ x = (c.same_iff x x).1 refl

pub ==_flip {ℓ} : {T : Type ℓ} ⦃c : Comparable T⦄ (x y : T) → (x == y) ≡ false → (y == x) ≡ false
==_flip {T} x y e = elim (Bool-cases (y == x)) [
  | inl b ↦
      let same : y ≡ x = ==→≡ b in absurd (cc (e, subst (λ z. (z == y) ≡ true) same (==_refl y)))
  | inr b ↦ b
]

-- Python's `x in s` for an optional test on the left: the two halves of a conjunction.
pub and_parts : (a b : Bool) → (a && b) ≡ true → (a ≡ true) × (b ≡ true)
and_parts a b h = ground arith

-- Python's `==` of pairs.
abbrev pub pair_beq {ℓ κ} :
    {A : Type ℓ} {B : Type κ} → ⦃a : Comparable A⦄ → ⦃b : Comparable B⦄ → A × B → A × B → Bool
pair_beq (x, y) (z, w) = (x == z) && (y == w)

pub pair_beq_iff {ℓ κ} :
    {A : Type ℓ} {B : Type κ} ⦃a : Comparable A⦄ ⦃b : Comparable B⦄ (p q : A × B)
    → (pair_beq p q ≡ true) ↔ (p ≡ q)
pair_beq_iff (x, y) (z, w) = (
  λ h.
      let parts = and_parts (x == z) (y == w) h in
      let p : x ≡ z = ==→≡ parts.0 in let q : y ≡ w = ==→≡ parts.1 in ap₂ (λ s t. (s, t)) p q,
  λ e.
      let p : x ≡ z = ap (λ t. t.0) e in
      let q : y ≡ w = ap (λ t. t.1) e in rw (p, q) (rw (==_refl z) (==_refl w)),
)

instance abbrev pub pair_comparable {ℓ κ} :
    {A : Type ℓ} {B : Type κ} → ⦃a : Comparable A⦄ → ⦃b : Comparable B⦄ → Comparable (A × B)
pair_comparable = record { same = pair_beq; same_iff = pair_beq_iff }
