-- ===== src/Chain/Buffer/Depth.antt =====
-- core/chains/confirmation_buffer.py: which headers an append or a reorg confirms, and what it keeps.
use chain_indexer.Base.{
  ℕ, suc, ◌+◌, ◌≤◌, ◌<◌, ◌≡◌, refl, sym, ap, subst, ◌∙◌, inl, inr, true, false, none, some, List,
  [], ◌∷◌, ◌++◌, arith, length, last, last-append_one, All, Bool-cases, Returns, ◌⊎◌, ◌↔◌,
}
use chain_indexer.Chain.Types.{BlockHeader}
use chain_indexer.Chain.Buffer.Lists.{drain_split, drain_confirmations}
use chain_indexer.Chain.Buffer.{ConfirmationBuffer, drain_loop, drain_confirmed, links, append}

-- The depth of the header under the tip is at least the number of confirmations.
abbrev pub IsDeep : ℕ → ℕ → BlockHeader → Type 0
IsDeep confirmations tip_num h = h.number + confirmations ≤ tip_num

-- The oldest header, if there is one, is not deep.
abbrev pub StartsShallow : ℕ → ℕ → List BlockHeader → Type 0
StartsShallow confirmations tip_num [] = Unit
StartsShallow confirmations tip_num (h ∷ hs) = tip_num < h.number + confirmations

abbrev pub IsConsecutive : List BlockHeader → Type 0
IsConsecutive [] = Unit
IsConsecutive (x ∷ []) = Unit
IsConsecutive (x ∷ y ∷ ys) = (y.number ≡ suc x.number) × IsConsecutive (y ∷ ys)

drain_loop_depths :
    (c t : ℕ) (hs : List BlockHeader)
    → All (IsDeep c t) (drain_loop c t hs).0 × StartsShallow c t (drain_loop c t hs).1
unfolding drain_loop
drain_loop_depths c t [] = (tt, tt)
drain_loop_depths c t (h ∷ hs) = ground (arith, drain_loop_depths c t hs)

drain_depths :
    (b : ConfirmationBuffer) (tip : BlockHeader)
    → last b.buf ≡ some tip
    → All (IsDeep b.confirmations tip.number) (drain_confirmed b).0
      × StartsShallow b.confirmations tip.number (drain_confirmed b).1.buf
unfolding drain_confirmed
drain_depths b tip e = rw (e, drain_confirmed) (drain_loop_depths b.confirmations tip.number b.buf)

-- What an accepted append promises of the headers that it confirms and of the new buffer.
pub record Appends (b : ConfirmationBuffer) (head : BlockHeader)
    (r : List BlockHeader × ConfirmationBuffer) : Type 0 where
  pub same_confirmations : r.1.confirmations ≡ b.confirmations
  pub kept : r.0 ++ r.1.buf ≡ b.buf ++ head ∷ []
  pub deep : All (IsDeep b.confirmations head.number) r.0
  pub shallow : StartsShallow b.confirmations head.number r.1.buf

append-Appends :
    (b : ConfirmationBuffer) (head : BlockHeader)
    → ((r : List BlockHeader × ConfirmationBuffer) × (append b head ≡ some r)
        × (links b head ≡ true)
        × Appends b head r)
      ⊎ ((append b head ≡ none) × (links b head ≡ false))
unfolding append
append-Appends b head = elim (Bool-cases (links b head)) [
  | inl link ↦
      let grown : ConfirmationBuffer = record b { buf = b.buf ++ head ∷ [] } in
      let depths = drain_depths grown head (last-append_one b.buf head) in
      inl (
        drain_confirmed grown,
        rw (link, append) refl,
        link,
        record {
          same_confirmations = drain_confirmations grown;
          kept = drain_split grown;
          deep = depths.0;
          shallow = depths.1;
        },
      )
  | inr no_link ↦ inr (rw (no_link, append) refl, no_link)
]

-- An append raises exactly if the head does not link to the tip. Otherwise it confirms, oldest
-- first, headers that are at least `confirmations` below the head, keeps the rest in order with the
-- head at the end, and the oldest header kept is less deep than that.
pub append_exact :
    (b : ConfirmationBuffer) (head : BlockHeader)
    → ((links b head ≡ false) ↔ (append b head ≡ none))
      × ((r : List BlockHeader × ConfirmationBuffer) → append b head ≡ some r → Appends b head r)
append_exact b head = elim (append-Appends b head) [
  | inl (r, e, link, h) ↦ (
    ((λ f. absurd (cc)), λ n. absurd (cc)),
    (λ q f. subst (Returns (Appends b head)) f (subst (Returns (Appends b head)) (sym e) h)),
  )
  | inr (n, no_link) ↦ (((λ _. n), λ _. no_link), (λ q f. absurd (cc)))
]

length-IsConsecutive :
    (x : BlockHeader) (l : List BlockHeader) (tip : BlockHeader)
    → IsConsecutive (x ∷ l)
    → last (x ∷ l) ≡ some tip
    → x.number + length l ≡ tip.number
length-IsConsecutive x [] tip h e = ground (arith, e)
length-IsConsecutive x (y ∷ ys) tip h e = omega (arith, length-IsConsecutive y ys tip h.1 e)

IsConsecutive-suffix : (xs ys : List BlockHeader) → IsConsecutive (xs ++ ys) → IsConsecutive ys
IsConsecutive-suffix [] ys h = h
IsConsecutive-suffix (x ∷ []) [] h = tt
IsConsecutive-suffix (x ∷ []) (y ∷ ys) h = h.1
IsConsecutive-suffix (x ∷ z ∷ xs) ys h = IsConsecutive-suffix (z ∷ xs) ys h.1

last-suffix : (xs ys : List BlockHeader) (y : BlockHeader) → last (xs ++ y ∷ ys) ≡ last (y ∷ ys)
last-suffix [] ys y = refl
last-suffix (x ∷ []) ys y = refl
last-suffix (x ∷ z ∷ xs) ys y = last-suffix (z ∷ xs) ys y

suffix_bound :
    (popped rest : List BlockHeader) (c : ℕ) (head : BlockHeader)
    → IsConsecutive (popped ++ rest)
    → last (popped ++ rest) ≡ some head
    → StartsShallow c head.number rest
    → length rest ≤ c
suffix_bound popped [] c head h e s = omega arith
suffix_bound popped (x ∷ rest) c head h e s = omega (
  arith,
  length-IsConsecutive x rest head (IsConsecutive-suffix popped (x ∷ rest) h)
      (sym (last-suffix popped rest x) ∙ e),
)

-- While heights are consecutive, an append leaves at most `confirmations` headers in the buffer.
pub append_bound :
    (b : ConfirmationBuffer) (head : BlockHeader) (popped : List BlockHeader)
    (b' : ConfirmationBuffer)
    → append b head ≡ some (popped, b')
    → IsConsecutive (b.buf ++ head ∷ [])
    → length b'.buf ≤ b.confirmations
append_bound b head popped b' e h =
    let a = (append_exact b head).1 (popped, b') e in
    suffix_bound popped b'.buf b.confirmations head (subst IsConsecutive (sym a.kept) h)
      (ap last a.kept ∙ last-append_one b.buf head) a.shallow
