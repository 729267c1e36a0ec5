-- ===== src/Chain/Buffer/Lists.antt =====
-- What the loops of the buffer do to lists of headers.
use mathlib.Core.List.{append_assoc, append-nil, reverse-cons, reverse-reverse}
use text.Mathlib.TextEquality.{eq_iff}
use chain_indexer.Base.{
  ℕ, ◌<◌, String, ◌≡◌, refl, sym, subst, ap, ◌∙◌, Bool, true, false, none, some, List, [], ◌∷◌,
  ◌++◌, reverse, arith, ◌==◌, string_comparable, last, any, any-append, ==→≡, ==_refl, ◌||◌,
  Option-cases, Bool-cases, inl, inr,
}
use chain_indexer.Chain.Types.{BlockHeader}
use chain_indexer.Chain.Buffer.{ConfirmationBuffer, drain_loop, drain_confirmed, by_hash, rewind}

-- Nothing is lost or reordered by draining.
pub drain_loop_split :
    (c t : ℕ) (hs : List BlockHeader) → (drain_loop c t hs).0 ++ (drain_loop c t hs).1 ≡ hs
unfolding drain_loop
drain_loop_split c t [] = refl
drain_loop_split c t (h ∷ hs) = ground (arith, drain_loop_split c t hs)

pub last-drain_loop :
    (c t : ℕ) (hs : List BlockHeader) (tip : BlockHeader)
    → 0 < c
    → last hs ≡ some tip
    → tip.number ≡ t
    → last (drain_loop c t hs).1 ≡ some tip
unfolding drain_loop
last-drain_loop c t [] tip h e n = cc
last-drain_loop c t (x ∷ []) tip h e n = ground arith
last-drain_loop c t (x ∷ y ∷ ys) tip h e n = ground (arith, last-drain_loop c t (y ∷ ys) tip h e n)

module _ (b : ConfirmationBuffer) where
  pub drain_split : (drain_confirmed b).0 ++ (drain_confirmed b).1.buf ≡ b.buf
  unfolding drain_confirmed
  drain_split = elim (Option-cases (last b.buf)) [
    | inl e ↦ rw (e, drain_confirmed) refl
    | inr (t, e) ↦ rw (e, drain_confirmed) (drain_loop_split b.confirmations t.number b.buf)
  ]

  pub drain_confirmations : (drain_confirmed b).1.confirmations ≡ b.confirmations
  unfolding drain_confirmed
  drain_confirmations = ground arith

  -- The tip itself is not confirmed.
  pub drain_last :
      (tip : BlockHeader)
      → 0 < b.confirmations
      → last b.buf ≡ some tip
      → last (drain_confirmed b).1.buf ≡ some tip
  unfolding drain_confirmed
  drain_last tip h e =
      rw (e, drain_confirmed) (last-drain_loop b.confirmations tip.number b.buf tip h e refl)

abbrev pub hash_is : String → BlockHeader → Bool
hash_is hash h = h.hash == hash

pub by_hash_found :
    (l : List BlockHeader) (hash : String) (a : BlockHeader)
    → by_hash l hash ≡ some a
    → (a.hash ≡ hash) × (any (hash_is hash) l ≡ true)
unfolding by_hash
by_hash_found [] hash a e = cc
by_hash_found (x ∷ xs) hash a e = ground (arith, by_hash_found xs hash a, eq_iff x.hash hash)

any-reverse : (p : BlockHeader → Bool) (l : List BlockHeader) → any p (reverse l) ≡ any p l
any-reverse p [] = refl
any-reverse p (x ∷ xs) =
    rw (reverse-cons x xs, any-append p (reverse xs) (x ∷ [])) (ground (arith, any-reverse p xs))

rewind_split :
    (hash : String) (r d : List BlockHeader)
    → reverse (rewind hash r d).0 ++ (rewind hash r d).1 ≡ reverse r ++ d
unfolding rewind
rewind_split hash [] d = refl
rewind_split hash (x ∷ r) d = elim (Bool-cases (x.hash == hash)) [
  | inl e ↦ rw (e, rewind) refl
  | inr e ↦
      rw (e, rewind)
        (rewind_split hash r (x ∷ d)
          ∙ sym (ap (λ l. l ++ d) (reverse-cons x r) ∙ append_assoc (reverse r) (x ∷ []) d))
]

rewind_found :
    (hash : String) (r d : List BlockHeader)
    → any (hash_is hash) r ≡ true
    → (k : BlockHeader) × (ks : List BlockHeader) × ((rewind hash r d).0 ≡ k ∷ ks) × (k.hash ≡ hash)
unfolding rewind
rewind_found hash [] d e = absurd (cc)
rewind_found hash (x ∷ r) d e = elim (Bool-cases (x.hash == hash)) [
  | inl t ↦ (x, r, rw (t, rewind) refl, ==→≡ t)
  | inr f ↦
      let (k, ks, p, q) = rewind_found hash r (x ∷ d) (ground arith) in (k, ks, rw (f, rewind) p, q)
]

rewind_apart :
    (hash : String) (r d : List BlockHeader)
    → any (hash_is hash) d ≡ false
    → any (hash_is hash) (rewind hash r d).1 ≡ false
unfolding rewind
rewind_apart hash [] d h = h
rewind_apart hash (x ∷ r) d h = elim (Bool-cases (x.hash == hash)) [
  | inl e ↦ rw (e, rewind) h
  | inr e ↦ rw (e, rewind) (rewind_apart hash r (x ∷ d) (rw e h))
]

by_hash_absent :
    (l : List BlockHeader) (hash : String) → any (hash_is hash) l ≡ false → by_hash l hash ≡ none
unfolding by_hash
by_hash_absent [] hash h = refl
by_hash_absent (x ∷ xs) hash h = elim (Bool-cases (x.hash == hash)) [
  | inl e ↦ absurd (cc (subst (λ b. (b || any (hash_is hash) xs) ≡ false) e h))
  | inr e ↦
      let rest : any (hash_is hash) xs ≡ false =
        subst (λ b. (b || any (hash_is hash) xs) ≡ false) e h in
      rw (by_hash_absent xs hash rest, by_hash) (rw e refl)
]

-- The last header with a hash is the one that is found.
by_hash_last :
    (xs ds : List BlockHeader) (k : BlockHeader)
    → any (hash_is k.hash) ds ≡ false
    → by_hash ((xs ++ k ∷ []) ++ ds) k.hash ≡ some k
unfolding by_hash
by_hash_last [] ds k h = rw (by_hash_absent ds k.hash h, by_hash) (rw (==_refl k.hash) refl)
by_hash_last (x ∷ xs) ds k h = rw (by_hash_last xs ds k h, by_hash) refl

-- Popping down to a hash that the deque holds splits it behind a header of that hash.
pub rewind_lem :
    (hash : String) (l : List BlockHeader)
    → any (hash_is hash) l ≡ true
    → (k : BlockHeader) × (ks : List BlockHeader) × (reverse (rewind hash (reverse l) []).0
        ≡ ks ++ k ∷ [])
      × (k.hash ≡ hash)
      × ((ks ++ k ∷ []) ++ (rewind hash (reverse l) []).1 ≡ l)
rewind_lem hash l e =
    let (k, ks, p, q) = rewind_found hash (reverse l) [] (any-reverse (hash_is hash) l ∙ e) in
    let kept = ap reverse p ∙ reverse-cons k ks in
    (
      k,
      reverse ks,
      kept,
      q,
      ap (λ m. m ++ (rewind hash (reverse l) []).1) (sym kept)
          ∙ rewind_split hash (reverse l) []
          ∙ append-nil (reverse (reverse l))
          ∙ reverse-reverse l,
    )

-- What popping down to the header that is found under a hash leaves and drops.
pub rewind-by_hash :
    (l : List BlockHeader) (a : BlockHeader)
    → by_hash l a.hash ≡ some a
    → (ks : List BlockHeader) × (reverse (rewind a.hash (reverse l) []).0 ≡ ks ++ a ∷ [])
      × ((ks ++ a ∷ []) ++ (rewind a.hash (reverse l) []).1 ≡ l)
      × (any (hash_is a.hash) (rewind a.hash (reverse l) []).1 ≡ false)
rewind-by_hash l a e =
    let (k, ks, kept, same, whole) = rewind_lem a.hash l (by_hash_found l a.hash a e).1 in
    let apart = rewind_apart a.hash (reverse l) [] refl in
    let apart_k : any (hash_is k.hash) (rewind a.hash (reverse l) []).1 ≡ false =
      subst (λ t. any (hash_is t) (rewind a.hash (reverse l) []).1 ≡ false) (sym same) apart in
    let found : by_hash l a.hash ≡ some k =
      subst (λ t. by_hash l t ≡ some k) same
        (subst (λ m. by_hash m k.hash ≡ some k) whole
          (by_hash_last ks (rewind a.hash (reverse l) []).1 k apart_k)) in
    let is : k ≡ a = cc (sym found ∙ e) in
    (
      ks,
      kept ∙ ap (λ h. ks ++ h ∷ []) is,
      ap (λ h. (ks ++ h ∷ []) ++ (rewind a.hash (reverse l) []).1) (sym is) ∙ whole,
      apart,
    )
