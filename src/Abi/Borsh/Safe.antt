-- ===== src/Abi/Borsh/Safe.antt =====
-- core/abi/decoder.py: the numbers, bytes and names of decoded Anchor data.
use chain_indexer.Base.{
  ℕ, ◌≡◌, String, false, Option, none, some, List, length, ◌==◌, nat_comparable, string_comparable,
  Bool-cases, inl, inr, Returns,
}
use chain_indexer.Base.Int.{ℤ}
use chain_indexer.Parse.Value.{
  Value, null, bool, int, str, bytes, list, tuple, dict, Values, nil, cons, Fields, end, field,
}
use chain_indexer.Abi.Borsh.{
  Layout, is_wide, normalize_borsh_value, normalize_borsh_values, normalize_borsh_fields,
  decode_anchor_borsh,
}

-- No number is above 2^53 in size, no bytes are those of a public key, and no key of a container is `_io`;
-- tuples, which construct does not make, are not looked into.
unfoldable mutual
  pub IsSafe : Value → Type 0
  IsSafe (int n) = is_wide n ≡ false
  IsSafe (bytes bs) = (length bs == 32) ≡ false
  IsSafe (list vs) = AreSafe vs
  IsSafe (dict fs) = FieldsSafe fs
  IsSafe v = Unit

  pub AreSafe : Values → Type 0
  AreSafe nil = Unit
  AreSafe (cons v vs) = IsSafe v × AreSafe vs

  pub FieldsSafe : Fields → Type 0
  FieldsSafe end = Unit
  FieldsSafe (field k v fs) = ((k == "_io") ≡ false) × IsSafe v × FieldsSafe fs

module _ (b58encode : List ℕ → String) where
  bytes-IsSafe : (bs : List ℕ) → IsSafe (normalize_borsh_value b58encode (bytes bs))
  unfolding normalize_borsh_value IsSafe
  bytes-IsSafe bs = elim (Bool-cases (length bs == 32)) [ inl b ↦ rw b tt | inr b ↦ rw b b ]

  int-IsSafe : (n : ℤ) → IsSafe (normalize_borsh_value b58encode (int n))
  unfolding normalize_borsh_value IsSafe
  int-IsSafe n = elim (Bool-cases (is_wide n)) [ inl b ↦ rw b tt | inr b ↦ rw b b ]

  field-FieldsSafe :
      (k : String) (v : Value) (fs : Fields)
      → IsSafe (normalize_borsh_value b58encode v)
      → FieldsSafe (normalize_borsh_fields b58encode fs)
      → FieldsSafe (normalize_borsh_fields b58encode (field k v fs))
  unfolding normalize_borsh_fields FieldsSafe
  field-FieldsSafe k v fs h g = elim (Bool-cases (k == "_io")) [
    | inl b ↦ rw (b, normalize_borsh_fields) g
    | inr b ↦ rw (b, normalize_borsh_fields) (b, h, g)
  ]

  mutual
    unfolding normalize_borsh_value IsSafe

    normalize_borsh_value-IsSafe : (v : Value) → IsSafe (normalize_borsh_value b58encode v)
    normalize_borsh_value-IsSafe null = tt
    normalize_borsh_value-IsSafe (bool b) = tt
    normalize_borsh_value-IsSafe (str s) = tt
    normalize_borsh_value-IsSafe (tuple vs) = tt
    normalize_borsh_value-IsSafe (bytes bs) = bytes-IsSafe bs
    normalize_borsh_value-IsSafe (int n) = int-IsSafe n
    normalize_borsh_value-IsSafe (list vs) = normalize_borsh_values-AreSafe vs
    normalize_borsh_value-IsSafe (dict fs) = normalize_borsh_fields-FieldsSafe fs

    normalize_borsh_values-AreSafe : (vs : Values) → AreSafe (normalize_borsh_values b58encode vs)
    normalize_borsh_values-AreSafe nil = tt
    normalize_borsh_values-AreSafe (cons v vs) =
        (normalize_borsh_value-IsSafe v, normalize_borsh_values-AreSafe vs)

    normalize_borsh_fields-FieldsSafe :
        (fs : Fields) → FieldsSafe (normalize_borsh_fields b58encode fs)
    normalize_borsh_fields-FieldsSafe end = tt
    normalize_borsh_fields-FieldsSafe (field k v fs) =
        field-FieldsSafe k v fs (normalize_borsh_value-IsSafe v)
          (normalize_borsh_fields-FieldsSafe fs)

  -- What an Anchor event or call decodes to has no number above 2^53 in size, no bytes of a public key and
  -- no key `_io`, at any depth of lists and dicts.
  pub decode_anchor_borsh-FieldsSafe :
      (parse : Layout → List ℕ → Option Fields) (layout : Layout) (body_bytes : List ℕ)
      → Returns FieldsSafe (decode_anchor_borsh b58encode parse layout body_bytes)
  unfolding decode_anchor_borsh
  decode_anchor_borsh-FieldsSafe parse layout body_bytes = parsed (parse layout body_bytes)
    where
      parsed :
          (o : Option Fields)
          → Returns FieldsSafe
              (elim o [ none ↦ none | some fs ↦ some (normalize_borsh_fields b58encode fs) ])
      parsed none = tt
      parsed (some fs) = normalize_borsh_fields-FieldsSafe fs
