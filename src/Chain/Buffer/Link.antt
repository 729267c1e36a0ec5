-- ===== src/Chain/Buffer/Link.antt =====
-- core/chains/confirmation_buffer.py: how confirmed and buffered headers link.
use mathlib.Core.List.{append_assoc}
use chain_indexer.Base.{
  ℕ, zero, suc, ◌<◌, String, ◌≡◌, refl, sym, ap, subst, ◌∙◌, inl, inr, true, false, Option, none,
  some, List, [], ◌∷◌, ◌++◌, reverse, string_comparable, length, last, last-append_one, any, ==→≡,
  Returns, Option-cases, Bool-cases,
}
use chain_indexer.Base.Int.{ℤ, sub_ℕ}
use chain_indexer.Chain.Types.{BlockHeader}
use chain_indexer.Chain.Buffer.Lists.{
  drain_split, drain_last, drain_confirmations, hash_is, by_hash_found, rewind_lem,
}
use chain_indexer.Chain.Buffer.{
  ConfirmationBuffer, Reply, Walk, ancestor, exhausted, raised, Resolver, drain_confirmed, by_hash,
  rewind, links, append, walk_back, rejoin, reset, finish, clean, handle_new_head, confirmed_of,
  deep_of,
}

-- Each header is the parent of the next.
abbrev pub IsLinked : List BlockHeader → Type 0
IsLinked [] = Unit
IsLinked (x ∷ []) = Unit
IsLinked (x ∷ y ∷ ys) = (y.parent_hash ≡ x.hash) × IsLinked (y ∷ ys)

-- The contract that the docstring states for `resolve_parent`.
abbrev pub IsHonest : Resolver → Type 0
IsHonest resolve_parent =
    (n : ℤ) (hash : String) (p : BlockHeader) → resolve_parent n hash ≡ some p → p.hash ≡ hash

IsLinked-join :
    (xs : List BlockHeader) (a : BlockHeader) (ys : List BlockHeader)
    → IsLinked (xs ++ a ∷ [])
    → IsLinked (a ∷ ys)
    → IsLinked ((xs ++ a ∷ []) ++ ys)
IsLinked-join [] a ys h k = k
IsLinked-join (x ∷ []) a ys h k = (h.0, k)
IsLinked-join (x ∷ y ∷ xs) a ys h k = (h.0, IsLinked-join (y ∷ xs) a ys h.1 k)

IsLinked-prefix : (xs ys : List BlockHeader) → IsLinked (xs ++ ys) → IsLinked xs
IsLinked-prefix [] ys h = tt
IsLinked-prefix (x ∷ []) ys h = tt
IsLinked-prefix (x ∷ y ∷ xs) ys h = (h.0, IsLinked-prefix (y ∷ xs) ys h.1)

split_last :
    (l : List BlockHeader) (t : BlockHeader)
    → last l ≡ some t
    → (i : List BlockHeader) × (l ≡ i ++ t ∷ [])
split_last [] t e = absurd (cc)
split_last (x ∷ []) t e = ([], cc)
split_last (x ∷ y ∷ ys) t e = let (i, p) = split_last (y ∷ ys) t e in (x ∷ i, ap (λ l. x ∷ l) p)

last-append :
    (xs ys : List BlockHeader) (t : BlockHeader) → last ys ≡ some t → last (xs ++ ys) ≡ some t
last-append [] ys t e = e
last-append (x ∷ []) [] t e = absurd (cc)
last-append (x ∷ []) (y ∷ ys) t e = e
last-append (x ∷ z ∷ xs) ys t e = last-append (z ∷ xs) ys t e

-- The walk ends at a buffered header, with a linked branch from its child up to the new head.
abbrev Joins : List BlockHeader → BlockHeader → Walk → Type 0
Joins buf head (ancestor a branch) =
    (any (hash_is a.hash) buf ≡ true)
    × ((p : BlockHeader) → p.hash ≡ a.hash → IsLinked (p ∷ branch))
    × (last branch ≡ some head)
Joins buf head exhausted = Unit
Joins buf head raised = Unit

IsLinked-cons :
    (p c : BlockHeader) (rest : List BlockHeader)
    → c.parent_hash ≡ p.hash
    → IsLinked (c ∷ rest)
    → IsLinked (p ∷ c ∷ rest)
IsLinked-cons p c rest e h = (e, h)

module _ (buf : List BlockHeader) (head : BlockHeader) (resolve_parent : Resolver)
    (honest : IsHonest resolve_parent) where
  walk_back-Joins :
      (rounds : ℕ) (cursor : BlockHeader) (rest : List BlockHeader)
      → IsLinked (cursor ∷ rest)
      → last (cursor ∷ rest) ≡ some head
      → Joins buf head (walk_back rounds buf resolve_parent cursor (cursor ∷ rest))
  unfolding walk_back
  walk_back-Joins zero cursor rest linked ends = tt
  walk_back-Joins (suc n) cursor rest linked ends =
      elim (Option-cases (by_hash buf cursor.parent_hash)) [
        | inr (a, e) ↦
            let (same, held) = by_hash_found buf cursor.parent_hash a e in
            rw (e, walk_back) (rw same held, (λ p q. (sym same ∙ sym q, linked)), ends)
        | inl e ↦ elim (Option-cases (resolve_parent (sub_ℕ cursor.number 1) cursor.parent_hash)) [
          | inl f ↦ rw (e, f, walk_back) tt
          | inr (p, f) ↦
              rw (e, f, walk_back)
                (walk_back-Joins n p (cursor ∷ rest)
                  (sym (honest (sub_ℕ cursor.number 1) cursor.parent_hash p f), linked) ends)
        ]
      ]

-- The headers that were confirmed, oldest first, and the buffer behind them.
pub record IsChain (out : List BlockHeader) (b : ConfirmationBuffer) : Type 0 where
  pub waits : 0 < b.confirmations
  pub linked : IsLinked (out ++ b.buf)
  pub held : (b.buf ≡ []) → out ≡ []

drain-IsChain :
    (out : List BlockHeader) (b : ConfirmationBuffer) (tip : BlockHeader)
    → 0 < b.confirmations
    → IsLinked (out ++ b.buf)
    → last b.buf ≡ some tip
    → IsChain (out ++ (drain_confirmed b).0) (drain_confirmed b).1
drain-IsChain out b tip h linked e = record {
  waits = rw (drain_confirmations b) h;
  linked =
      rw (append_assoc out (drain_confirmed b).0 (drain_confirmed b).1.buf, drain_split b) linked;
  held = λ nil. absurd (cc (drain_last b tip h e, ap last nil));
}

last-nil : (l : List BlockHeader) → last l ≡ none → l ≡ []
last-nil [] e = refl
last-nil (x ∷ []) e = absurd (cc)
last-nil (x ∷ y ∷ ys) e = absurd (cc (last-nil (y ∷ ys) e))

extend-IsLinked :
    (out : List BlockHeader) (b : ConfirmationBuffer) (head : BlockHeader)
    → IsChain out b
    → links b head ≡ true
    → IsLinked (out ++ (b.buf ++ head ∷ []))
unfolding links
extend-IsLinked out b head chain e = elim (Option-cases (last b.buf)) [
  | inl f ↦ let nil = last-nil b.buf f in rw (nil, chain.held nil) tt
  | inr (t, f) ↦
      let (i, p) = split_last b.buf t f in
      let up_to_tip = rw (p, ← append_assoc out i (t ∷ [])) at chain.linked in
      rw (p, ← append_assoc out (i ++ t ∷ []) (head ∷ []), ← append_assoc out i (t ∷ []))
        (IsLinked-join (out ++ i) t (head ∷ []) up_to_tip (sym (==→≡ (rw (f, links) at e)), tt))
]

append-IsChain :
    (out : List BlockHeader) (b : ConfirmationBuffer) (head : BlockHeader)
    → IsChain out b
    → Returns (λ r. IsChain (out ++ r.0) r.1) (append b head)
unfolding append
append-IsChain out b head chain = elim (Bool-cases (links b head)) [
  | inr no_link ↦ rw (no_link, append) tt
  | inl link ↦
      rw (link, append)
        (drain-IsChain out (record b { buf = b.buf ++ head ∷ [] }) head chain.waits
          (extend-IsLinked out b head chain link) (last-append_one b.buf head))
]

rejoin-IsChain :
    (out : List BlockHeader) (b : ConfirmationBuffer) (head a : BlockHeader)
    (branch : List BlockHeader)
    → IsChain out b
    → Joins b.buf head (ancestor a branch)
    → IsChain (out ++ confirmed_of (rejoin b a branch).0) (rejoin b a branch).1
unfolding rejoin
rejoin-IsChain out b head a branch chain (held, linked, ends) =
    let (k, ks, kept, same, whole) = rewind_lem a.hash b.buf held in
    let old = subst (λ l. IsLinked (out ++ l)) (sym whole) chain.linked in
    let up_to_ancestor =
      IsLinked-prefix (out ++ (ks ++ k ∷ [])) (rewind a.hash (reverse b.buf) []).1
        (rw (append_assoc out (ks ++ k ∷ []) (rewind a.hash (reverse b.buf) []).1) old) in
    let joined =
      IsLinked-join (out ++ ks) k branch (rw (append_assoc out ks (k ∷ [])) up_to_ancestor)
        (linked k same) in
    let new : List BlockHeader = reverse (rewind a.hash (reverse b.buf) []).0 ++ branch in
    drain-IsChain out (record b { buf = new }) head chain.waits
      (subst (λ l. IsLinked (out ++ (l ++ branch))) (sym kept)
        (rw (← append_assoc out (ks ++ k ∷ []) branch, ← append_assoc out ks (k ∷ [])) joined))
      (last-append (reverse (rewind a.hash (reverse b.buf) []).0) branch head ends)

abbrev Extends : List BlockHeader → Reply × ConfirmationBuffer → Type 0
Extends out (reply, b) = deep_of reply ≡ false → IsChain (out ++ confirmed_of reply) b

finish-Extends :
    (out : List BlockHeader) (b : ConfirmationBuffer) (head : BlockHeader) (w : Walk)
    → IsChain out b
    → Joins b.buf head w
    → Returns (Extends out) (finish b head w)
finish-Extends out b head (ancestor a branch) chain joins =
    λ _. rejoin-IsChain out b head a branch chain joins
finish-Extends out b head exhausted chain joins = unfold reset in λ deep. absurd (cc)
finish-Extends out b head raised chain joins = tt

clean-Extends :
    (out : List BlockHeader) (r : Option (List BlockHeader × ConfirmationBuffer))
    → Returns (λ (r : List BlockHeader × ConfirmationBuffer). IsChain (out ++ r.0) r.1) r
    → Returns (Extends out) (clean r)
clean-Extends out none h = tt
clean-Extends out (some (popped, b)) h = λ _. h

handle_new_head-Extends :
    (out : List BlockHeader) (b : ConfirmationBuffer) (head : BlockHeader)
    (resolve_parent : Resolver)
    → IsHonest resolve_parent
    → IsChain out b
    → Returns (Extends out) (handle_new_head b head resolve_parent)
unfolding handle_new_head
handle_new_head-Extends out b head resolve_parent honest chain = elim (Bool-cases (links b head)) [
  | inl link ↦
      rw (link, handle_new_head)
        (clean-Extends out (append b head) (append-IsChain out b head chain))
  | inr no_link ↦
      rw (no_link, handle_new_head)
        (finish-Extends out b head _ chain
          (walk_back-Joins b.buf head resolve_parent honest (suc (length b.buf)) head [] tt refl))
]

-- If a new head is handled and no deep reorg is reported, then the headers confirmed before, those
-- confirmed now and those left in the buffer are still one linked chain, and the buffer is not empty
-- once something was confirmed. It needs a positive number of confirmations and a `resolve_parent`
-- that keeps its contract.
pub handle_new_head-IsChain :
    (out : List BlockHeader) (b : ConfirmationBuffer) (head : BlockHeader)
    (resolve_parent : Resolver)
    → IsHonest resolve_parent
    → IsChain out b
    → (reply : Reply) (b' : ConfirmationBuffer)
    → handle_new_head b head resolve_parent ≡ some (reply, b')
    → deep_of reply ≡ false
    → IsChain (out ++ confirmed_of reply) b'
handle_new_head-IsChain out b head resolve_parent honest chain reply b' e =
    subst (Returns (Extends out)) e (handle_new_head-Extends out b head resolve_parent honest chain)

-- A run of the listener: the headers confirmed so far and the buffer, after any number of heads of
-- which none raised and none was a deep reorg.
pub data Run (confirmations : ℕ) : List BlockHeader → ConfirmationBuffer → Type 0 where
  start : Run confirmations [] (record { confirmations = confirmations; buf = [] })
  head :
      {out : List BlockHeader} {b b' : ConfirmationBuffer} {reply : Reply} {more : List BlockHeader}
      → Run confirmations out b
      → (header : BlockHeader) (resolve_parent : Resolver) → IsHonest resolve_parent
      → handle_new_head b header resolve_parent ≡ some (reply, b')
      → deep_of reply ≡ false
      → more ≡ out ++ confirmed_of reply
      → Run confirmations more b'

Run-IsChain :
    {confirmations : ℕ} {out : List BlockHeader} {b : ConfirmationBuffer}
    → 0 < confirmations
    → Run confirmations out b
    → IsChain out b
Run-IsChain h start = record { waits = h; linked = tt; held = λ _. refl }
Run-IsChain h (head {out} {b} {b'} {reply} r header resolve_parent honest e shallow grown) =
    rw grown (
      handle_new_head-IsChain out b header resolve_parent honest (Run-IsChain h r) reply b' e
        shallow)

-- Whatever heads arrive, while none raises and none is a deep reorg, the headers handed to the rest
-- of the program, followed by those still buffered, form one chain in which each header is the
-- parent of the next: a reorg never touches what was confirmed. The number of confirmations is
-- positive.
pub Run-IsLinked :
    {confirmations : ℕ} (out : List BlockHeader) (b : ConfirmationBuffer)
    → 0 < confirmations
    → Run confirmations out b
    → IsLinked (out ++ b.buf)
Run-IsLinked out b h r = (Run-IsChain h r).linked
