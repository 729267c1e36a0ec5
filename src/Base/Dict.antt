-- ===== src/Base/Dict.antt =====
-- Python's dict as an association list in the order of insertion, each key once.
use mathlib.Core.Path.{◌≡◌, refl, sym, ap, subst, ◌∙◌}
use mathlib.Core.Bool.{true, false}
use mathlib.Core.Option.{Option, none, some}
use mathlib.Core.Logic.{inl, inr}
use mathlib.Core.List.{List, [], ◌∷◌}
use chain_indexer.Base.Tests.{if◌then◌else◌, Comparable, ◌==◌, Bool-cases, ==→≡, ==_refl, ==_flip}

abbrev pub Dict {ℓ κ} : Type ℓ → Type κ → Type (ℓ ⊔ κ)
Dict K V = List (K × V)

abbrev pub or_else {ℓ} : {V : Type ℓ} → Option V → Option V → Option V
or_else none o = o
or_else (some v) o = some v

module _ {ℓ κ} {K : Type ℓ} {V : Type κ} ⦃e : Comparable K⦄ where
  unfoldable pub get : K → Dict K V → Option V
  get k [] = none
  get k ((j, v) ∷ m) = if j == k then some v else get k m

  -- `d[k] = v`: a key that is there keeps its place.
  unfoldable pub put : K → V → Dict K V → Dict K V
  put k v [] = (k, v) ∷ []
  put k v ((j, w) ∷ m) = if j == k then (j, v) ∷ m else (j, w) ∷ put k v m

  -- `d.pop(k, None)`
  unfoldable pub remove : K → Dict K V → Dict K V
  remove k [] = []
  remove k ((j, w) ∷ m) = if j == k then m else (j, w) ∷ remove k m

  pub get-put_self : (k : K) (v : V) (m : Dict K V) → get k (put k v m) ≡ some v
  unfolding get put
  get-put_self k v [] = rw (==_refl k) refl
  get-put_self k v ((j, w) ∷ m) = elim (Bool-cases (j == k)) [
    | inl b ↦ rw (b, get) (rw (b, get) refl)
    | inr b ↦ rw (b, get) (rw (b, get) (get-put_self k v m))
  ]

  pub get-put_ne : (k j : K) (v : V) (m : Dict K V) → (k == j) ≡ false → get j (put k v m) ≡ get j m
  unfolding get put
  get-put_ne k j v [] h = rw h refl
  get-put_ne k j v ((i, w) ∷ m) h = elim (Bool-cases (i == k)) [
    | inl b ↦
        let same : i ≡ k = ==→≡ b in
        let f : (i == j) ≡ false = rw same h in rw (b, get) (rw (f, get) refl)
    | inr b ↦ elim (Bool-cases (i == j)) [
      | inl c ↦ rw (b, get) (rw (c, get) refl)
      | inr c ↦ rw (b, get) (rw (c, get) (get-put_ne k j v m h))
    ]
  ]

  -- `{**out, **m}`
  unfoldable pub update_all : Dict K V → Dict K V → Dict K V
  unfolding put
  update_all out [] = out
  update_all out ((k, v) ∷ m) = update_all (put k v out) m

  -- Each key stands once.
  abbrev pub IsKeyed : Dict K V → Type κ
  IsKeyed [] = Unit
  IsKeyed ((k, v) ∷ m) = (get k m ≡ none) × IsKeyed m

  pub put-IsKeyed : (k : K) (v : V) (m : Dict K V) → IsKeyed m → IsKeyed (put k v m)
  unfolding put get
  put-IsKeyed k v [] h = (refl, tt)
  put-IsKeyed k v ((j, w) ∷ m) h = elim (Bool-cases (j == k)) [
    | inl b ↦ rw (b, put) h
    | inr b ↦ rw (b, put) (get-put_ne k j v m (==_flip j k b) ∙ h.0, put-IsKeyed k v m h.1)
  ]

  pub update_all-IsKeyed : (out m : Dict K V) → IsKeyed out → IsKeyed (update_all out m)
  unfolding update_all
  update_all-IsKeyed out [] h = h
  update_all-IsKeyed out ((k, v) ∷ m) h = update_all-IsKeyed (put k v out) m (put-IsKeyed k v out h)

  -- The entries of the second dictionary hide those of the first.
  pub get-update_all :
      (k : K) (out m : Dict K V)
      → IsKeyed m
      → get k (update_all out m) ≡ or_else (get k m) (get k out)
  unfolding update_all get
  get-update_all k out [] h = refl
  get-update_all k out ((j, v) ∷ m) h = elim (Bool-cases (j == k)) [
    | inl b ↦
        let same : j ≡ k = ==→≡ b in
        rw (b, get)
          (get-update_all k (put j v out) m h.1
            ∙ subst (λ i. or_else (get i m) (get i (put j v out)) ≡ some v) same
                (rw h.0 (get-put_self j v out)))
    | inr b ↦
        rw (b, get)
          (get-update_all k (put j v out) m h.1 ∙ ap (or_else (get k m)) (get-put_ne j k v out b))
  ]

  pub get-cons_eq : (k j : K) (v : V) (m : Dict K V) → (j == k) ≡ true → get k ((j, v) ∷ m) ≡ some v
  unfolding get
  get-cons_eq k j v m h = rw h refl

  pub get-cons_ne :
      (k j : K) (v : V) (m : Dict K V) → (j == k) ≡ false → get k ((j, v) ∷ m) ≡ get k m
  unfolding get
  get-cons_ne k j v m h = rw h refl

  pub get-remove_ne : (k j : K) (m : Dict K V) → (k == j) ≡ false → get j (remove k m) ≡ get j m
  unfolding get remove
  get-remove_ne k j [] h = refl
  get-remove_ne k j ((i, w) ∷ m) h = elim (Bool-cases (i == k)) [
    | inl b ↦
        let same : i ≡ k = ==→≡ b in
        let f : (i == j) ≡ false = rw same h in rw (b, remove) (rw (f, get) refl)
    | inr b ↦ elim (Bool-cases (i == j)) [
      | inl c ↦ rw (b, remove) (rw (c, get) refl)
      | inr c ↦ rw (b, remove) (rw (c, get) (get-remove_ne k j m h))
    ]
  ]

  pub get-remove_self : (k : K) (m : Dict K V) → IsKeyed m → get k (remove k m) ≡ none
  unfolding get remove
  get-remove_self k [] h = refl
  get-remove_self k ((i, w) ∷ m) h = elim (Bool-cases (i == k)) [
    | inl b ↦ let same : i ≡ k = ==→≡ b in rw (b, remove) (subst (λ x. get x m ≡ none) same h.0)
    | inr b ↦ rw (b, remove) (rw (b, get) (get-remove_self k m h.1))
  ]

  pub remove-IsKeyed : (k : K) (m : Dict K V) → IsKeyed m → IsKeyed (remove k m)
  unfolding remove
  remove-IsKeyed k [] h = h
  remove-IsKeyed k ((i, w) ∷ m) h = elim (Bool-cases (i == k)) [
    | inl b ↦ rw (b, remove) h.1
    | inr b ↦ rw (b, remove) (get-remove_ne k i m (==_flip i k b) ∙ h.0, remove-IsKeyed k m h.1)
  ]

  pub get-put :
      (k j : K) (v : V) (m : Dict K V) → get j (put k v m) ≡ (if k == j then some v else get j m)
  get-put k j v m = elim (Bool-cases (k == j)) [
    | inl b ↦
        let same : k ≡ j = ==→≡ b in
        rw b (subst (λ i. get i (put k v m) ≡ some v) same (get-put_self k v m))
    | inr b ↦ rw b (get-put_ne k j v m b)
  ]

  pub get-remove :
      (k j : K) (m : Dict K V) → IsKeyed m → get j (remove k m) ≡ (if k == j then none else get j m)
  get-remove k j m h = elim (Bool-cases (k == j)) [
    | inl b ↦
        let same : k ≡ j = ==→≡ b in
        rw b (subst (λ i. get i (remove k m) ≡ none) same (get-remove_self k m h))
    | inr b ↦ rw b (get-remove_ne k j m b)
  ]

  -- What is not there is not removed.
  pub remove_absent : (k : K) (m : Dict K V) → get k m ≡ none → remove k m ≡ m
  unfolding get remove
  remove_absent k [] h = refl
  remove_absent k ((i, w) ∷ m) h = elim (Bool-cases (i == k)) [
    | inl b ↦ absurd (cc (sym (get-cons_eq k i w m b) ∙ h))
    | inr b ↦
        rw (b, remove) (ap (λ t. (i, w) ∷ t) (remove_absent k m (sym (get-cons_ne k i w m b) ∙ h)))
  ]
