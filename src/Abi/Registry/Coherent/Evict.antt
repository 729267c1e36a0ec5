-- ===== src/Abi/Registry/Coherent/Evict.antt =====
-- core/abi/registry.py: which decoders the loop of `refresh` that evicts decoders leaves.
use mathlib.Core.Option
use chain_indexer.Base.{
  ◌≡◌, refl, sym, subst, ◌∙◌, String, Bool, true, false, some, List, [], ◌∷◌, ◌==◌,
  string_comparable, pair_comparable, ==→≡, ==_refl, ==_flip, Bool-cases, inl, inr, if◌then◌else◌,
  Among, here, there, and_parts, Among-cases,
}
use chain_indexer.Base.Dict.{
  Dict, get, put, IsKeyed, put-IsKeyed, get-cons_eq, get-cons_ne, get-remove_ne,
}
use chain_indexer.Config.Snapshot.{SnapshotAbi}
use chain_indexer.Parse.Value.{Value}
use chain_indexer.Abi.Registry.{
  AbiRegistry, Decoder, without, evict, evict_changed, keys, is_kept, hash_all, abi_dict,
}

abbrev eq_pair : String × String → String × String → Bool
eq_pair p q = p == q

eq_pair-first : (aid id k key : String) → eq_pair (aid, k) (id, key) ≡ true → aid ≡ id
eq_pair-first aid id k key h = ==→≡ (and_parts (aid == id) (k == key) h).0

-- Keys of different ABIs differ.
eq_pair-ne :
    (aid id x k key : String)
    → (aid == x) ≡ true
    → (id == x) ≡ false
    → eq_pair (aid, k) (id, key) ≡ false
eq_pair-ne aid id x k key h g = elim (Bool-cases (eq_pair (aid, k) (id, key))) [
  | inr b ↦ b
  | inl b ↦
      let a : aid ≡ id = eq_pair-first aid id k key b in
      absurd (cc (subst (λ i. (i == x) ≡ true) a h, g))
]

-- A decoder that is left is one that was there, of another ABI.
get-without :
    (x id key : String) (d : Decoder) (ds : Dict (String × String) Decoder)
    → get (id, key) (without x ds) ≡ some d
    → (get (id, key) ds ≡ some d) × ((id == x) ≡ false)
unfolding without
get-without x id key d [] h = absurd (unfold get in cc h)
get-without x id key d (((aid, k), d') ∷ ds) h = elim (Bool-cases (aid == x)) [
  | inl b ↦
      let rest = get-without x id key d ds (
        subst
          (λ t. get (id, key) (if t then without x ds else ((aid, k), d') ∷ without x ds) ≡ some d)
          b h) in
      (get-cons_ne (id, key) (aid, k) d' ds (eq_pair-ne aid id x k key b rest.1) ∙ rest.0, rest.1)
  | inr b ↦ left (get-without x id key d ds) b (
      subst
        (λ t. get (id, key) (if t then without x ds else ((aid, k), d') ∷ without x ds) ≡ some d) b
        h)
]
  where
    left :
        (get (id, key) (without x ds) ≡ some d → (get (id, key) ds ≡ some d) × ((id == x) ≡ false))
        → (aid == x) ≡ false
        → get (id, key) (((aid, k), d') ∷ without x ds) ≡ some d
        → (get (id, key) (((aid, k), d') ∷ ds) ≡ some d) × ((id == x) ≡ false)
    left rest b h = elim (Bool-cases (eq_pair (aid, k) (id, key))) [
      | inl e ↦
          let a : aid ≡ id = eq_pair-first aid id k key e in
          (
            get-cons_eq (id, key) (aid, k) d' ds e
                ∙ sym (get-cons_eq (id, key) (aid, k) d' (without x ds) e)
                ∙ h,
            subst (λ i. (i == x) ≡ false) a b,
          )
      | inr e ↦
          let r = rest (sym (get-cons_ne (id, key) (aid, k) d' (without x ds) e) ∙ h) in
          (get-cons_ne (id, key) (aid, k) d' ds e ∙ r.0, r.1)
    ]

pub Among-keys : (id h : String) (m : Dict String String) → get id m ≡ some h → Among id (keys m)
Among-keys id h [] e = absurd (unfold get in cc e)
Among-keys id h ((k, v) ∷ m) e = elim (Bool-cases (k == id)) [
  | inl b ↦ let same : k ≡ id = ==→≡ b in subst (λ i. Among i (k ∷ keys m)) same here
  | inr b ↦ there (Among-keys id h m (sym (get-cons_ne id k v m b) ∙ e))
]

module _ (hash_body : Value → String) where
  pub get-hash_all :
      (id : String) (m : Dict String SnapshotAbi)
      → get id (hash_all hash_body m) ≡ Option.map (λ a. hash_body a.body) (get id m)
  unfolding get hash_all
  get-hash_all id [] = refl
  get-hash_all id ((k, a) ∷ m) = elim (Bool-cases (k == id)) [
    | inl b ↦ rw (b, get) refl
    | inr b ↦ rw (b, get) (get-hash_all id m)
  ]

pub abi_dict-IsKeyed :
    (as' : List SnapshotAbi) (m : Dict String SnapshotAbi) → IsKeyed m → IsKeyed (abi_dict as' m)
unfolding abi_dict
abi_dict-IsKeyed [] m h = h
abi_dict-IsKeyed (a ∷ as') m h = abi_dict-IsKeyed as' (put a.id a m) (put-IsKeyed a.id a m h)

module _ (hash_body : Value → String) (new_abis : Dict String SnapshotAbi) (id key : String)
    (d : Decoder) where
  abbrev Keeps : AbiRegistry → Type 0
  Keeps r = is_kept hash_body (get id new_abis) (get id r.hashes) ≡ true

  -- The decoders that are left after the loop were there, of ABIs that are kept if the loop meets them.
  pub evict_changed-kept :
      (ids : List String) (r : AbiRegistry)
      → get (id, key) (evict_changed hash_body ids new_abis r).decoders ≡ some d
      → (get (id, key) r.decoders ≡ some d) × (Among id ids → Keeps r)
  evict_changed-kept [] r h = (unfold evict_changed in h, λ m. elim m [ ])
  evict_changed-kept (x ∷ ids) r h =
      step (is_kept hash_body (get x new_abis) (get x r.hashes)) refl (evict_changed-kept ids r)
        (evict_changed-kept ids (evict x r)) (unfold evict_changed in h)
    where
      kept_there :
          is_kept hash_body (get x new_abis) (get x r.hashes) ≡ true
          → (Among id ids → Keeps r)
          → Among id (x ∷ ids)
          → Keeps r
      kept_there b m n = elim (Among-cases id x ids n) [
        | inl same ↦
            subst (λ i. is_kept hash_body (get i new_abis) (get i r.hashes) ≡ true) (sym same) b
        | inr n' ↦ m n'
      ]

      evicted_there :
          (id == x) ≡ false → (Among id ids → Keeps (evict x r)) → Among id (x ∷ ids) → Keeps r
      evicted_there ne m n = elim (Among-cases id x ids n) [
        | inl same ↦ absurd (cc (==_refl id, subst (λ i. (id == i) ≡ false) (sym same) ne))
        | inr n' ↦
            subst (λ o. is_kept hash_body (get id new_abis) o ≡ true)
              (get-remove_ne x id r.hashes (==_flip id x ne)) (unfold evict in m n')
      ]

      step :
          (b : Bool)
          → is_kept hash_body (get x new_abis) (get x r.hashes) ≡ b
          → (get (id, key) (evict_changed hash_body ids new_abis r).decoders ≡ some d
              → (get (id, key) r.decoders ≡ some d) × (Among id ids → Keeps r))
          → (get (id, key) (evict_changed hash_body ids new_abis (evict x r)).decoders ≡ some d
              → (get (id, key) (evict x r).decoders ≡ some d) × (Among id ids → Keeps (evict x r)))
          → get
              (id, key)
              (evict_changed hash_body ids new_abis (if b then r else evict x r)).decoders
            ≡ some d
          → (get (id, key) r.decoders ≡ some d) × (Among id (x ∷ ids) → Keeps r)
      step true b same gone h = let k = same h in (k.0, kept_there b k.1)
      step false b same gone h =
          let k = gone h in
          let w = get-without x id key d r.decoders (unfold evict in k.0) in
          (w.0, evicted_there w.1 k.1)
