-- ===== src/Run/Logs/Buckets.antt =====
-- apps/worker/chain_runner.py: the buckets of a list of logs.
use mathlib.Core.Option
use mathlib.Core.List.{append_assoc}
use chain_indexer.Base.{
  ℕ, ◌≡◌, refl, ap, subst, ◌∙◌, Bool, true, false, Option, none, some, List, [], ◌∷◌, ◌++◌, filter,
  ◌==◌, nat_comparable, if◌then◌else◌, All, arith, Bool-cases, inl, inr, ==→≡,
}
use chain_indexer.Base.Dict.{
  Dict, get, put, get-put_self, get-put_ne, IsKeyed, put-IsKeyed, or_else,
}
use chain_indexer.Chain.Types.{Log}
use chain_indexer.Run.Logs.{bucket_onto}

-- The logs that a dictionary has for a block; `logs_by_block.get(n, [])`.
abbrev pub at : ℕ → Dict ℕ (List Log) → List Log
at n d = Option.get_or (get n d) []

abbrev pub of_block : ℕ → Log → Bool
of_block n lg = lg.block_number == n

pub bucket_onto-IsKeyed :
    (logs : List Log) (out : Dict ℕ (List Log)) → IsKeyed out → IsKeyed (bucket_onto out logs)
unfolding bucket_onto
bucket_onto-IsKeyed [] out h = h
bucket_onto-IsKeyed (lg ∷ logs) out h =
    bucket_onto-IsKeyed logs (put lg.block_number (at lg.block_number out ++ lg ∷ []) out)
      (put-IsKeyed lg.block_number (at lg.block_number out ++ lg ∷ []) out h)

-- What a list of logs adds to an entry.
abbrev pub grow : Option (List Log) → List Log → Option (List Log)
grow o [] = o
grow o (lg ∷ logs) = some (Option.get_or o [] ++ lg ∷ logs)

grow-grow :
    (o : Option (List Log)) (lg : Log) (logs : List Log)
    → grow (grow o (lg ∷ [])) logs ≡ grow o (lg ∷ logs)
grow-grow o lg [] = refl
grow-grow o lg (x ∷ logs) = ap some (append_assoc (Option.get_or o []) (lg ∷ []) (x ∷ logs))

get-put_log :
    (n : ℕ) (lg : Log) (out : Dict ℕ (List Log))
    → get n (put lg.block_number (at lg.block_number out ++ lg ∷ []) out)
      ≡ grow (get n out) (if of_block n lg then lg ∷ [] else [])
get-put_log n lg out = elim (Bool-cases (of_block n lg)) [
  | inl b ↦
      let same : lg.block_number ≡ n = ==→≡ b in
      rw b (
        subst
          (λ j.
            get j (put lg.block_number (at lg.block_number out ++ lg ∷ []) out)
            ≡ some (at j out ++ lg ∷ []))
          same (get-put_self lg.block_number (at lg.block_number out ++ lg ∷ []) out))
  | inr b ↦ rw b (get-put_ne lg.block_number n (at lg.block_number out ++ lg ∷ []) out b)
]

pub get-bucket_onto :
    (n : ℕ) (logs : List Log) (out : Dict ℕ (List Log))
    → get n (bucket_onto out logs) ≡ grow (get n out) (filter (of_block n) logs)
unfolding bucket_onto
get-bucket_onto n [] out = refl
get-bucket_onto n (lg ∷ logs) out =
    get-bucket_onto n logs (put lg.block_number (at lg.block_number out ++ lg ∷ []) out)
    ∙ ap (λ o. grow o (filter (of_block n) logs)) (get-put_log n lg out)
    ∙ step (of_block n lg)
  where
    step :
        (b : Bool)
        → grow (grow (get n out) (if b then lg ∷ [] else [])) (filter (of_block n) logs)
          ≡ grow (get n out) (if b then lg ∷ filter (of_block n) logs else filter (of_block n) logs)
    step true = grow-grow (get n out) lg (filter (of_block n) logs)
    step false = refl

pub grown : (logs : List Log) → Option.get_or (grow none logs) [] ≡ logs
grown [] = refl
grown (lg ∷ logs) = refl

pub or_else-none : (o : Option (List Log)) → or_else o none ≡ o
or_else-none none = refl
or_else-none (some logs) = refl

pub filter-of_block :
    (n m : ℕ) (logs : List Log)
    → All (λ lg. lg.block_number ≡ m) logs
    → filter (of_block n) logs ≡ (if m == n then logs else [])
filter-of_block n m [] h = ground arith
filter-of_block n m (lg ∷ logs) h = ground (arith, h.0, filter-of_block n m logs h.1)
