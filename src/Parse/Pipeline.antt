-- ===== src/Parse/Pipeline.antt =====
-- core/parser/pipeline.py: the parsers of a chain, one after the other. A parser is a generator: the
-- events that it yields, and whether it then raises an exception.
use mathlib.Core.List.{append_assoc}
use chain_indexer.Base.{
  ◌≡◌, refl, ap, Bool, false, List, [], ◌∷◌, ◌++◌, if◌then◌else◌, Bool-cases, inl, inr,
}
use chain_indexer.Parse.Event.{Event}

pub record Yielded : Type 0 where
  pub events : List Event
  pub raised : Bool

abbrev pub quiet : Yielded
quiet = record { events = []; raised = false }

-- `yield from` one generator and then another, which does not run if the first raises.
unfoldable pub continued : Yielded → Yielded → Yielded
continued y z = if y.raised then y else record { events = y.events ++ z.events; raised = z.raised }

pub quiet-continued : (y : Yielded) → continued quiet y ≡ y
unfolding continued
quiet-continued y = refl

pub continued_assoc : (x y z : Yielded) → continued (continued x y) z ≡ continued x (continued y z)
unfolding continued
continued_assoc x y z = elim (Bool-cases x.raised) [
  | inl b ↦ rw (b, continued) refl
  | inr b ↦ elim (Bool-cases y.raised) [
    | inl c ↦ rw (b, c, continued) refl
    | inr c ↦
        rw (b, c, continued)
          (ap (λ es. record { events = es; raised = z.raised })
            (append_assoc x.events y.events z.events))
  ]
]

module _ {ℓ} {B : Type ℓ} where
  -- An exception ends its parser only: the next parser runs in either case.
  unfoldable pub run : List (B → Yielded) → B → List Event
  run [] block = []
  run (p ∷ ps) block = (p block).events ++ run ps block
