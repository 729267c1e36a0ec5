-- ===== src/Abi/Registry/Coherent/Decoders.antt =====
-- core/abi/registry.py: the cache of decoders, and the search of an ABI.
use mathlib.Core.Option
use chain_indexer.Base.{
  ℕ, ◌+◌, ◌*◌, ◌≡◌, refl, sym, subst, ◌∙◌, String, Bool, true, false, Option, none, some, List, [],
  ◌∷◌, length, arith, ◌==◌, string_comparable, pair_comparable, ==→≡, Bool-cases, Option-cases, inl,
  inr,
}
use chain_indexer.Base.Text
use chain_indexer.Base.Text.{lower, length-lower}
use chain_indexer.Base.Dict.{get, put, get-put_self, get-put_ne}
use chain_indexer.Notify.Payload.{hex_of}
use chain_indexer.Parse.Value.{Value, Values, nil, cons}
use chain_indexer.Abi.Signature.{
  prefixed_hex, event_topic0, function_selector, canonical_event_signature,
  canonical_function_signature,
}
use chain_indexer.Abi.Registry.{AbiRegistry, Decoder, entries_of, is_dict, has_type}
use chain_indexer.Abi.Registry.Lookup.{entry_of, find_entry, get_body, get_decoder}
use chain_indexer.Abi.Registry.Coherent.{IsDecoderOf, IsCoherent}

length-hex_of : (bs : List ℕ) → Text.length (hex_of bs) ≡ 2 * length bs
unfolding hex_of Text.length
length-hex_of [] = refl
length-hex_of (b ∷ bs) = omega (arith, length-hex_of bs)

length-prefixed_hex : (bs : List ℕ) → Text.length (prefixed_hex bs) ≡ 2 + 2 * length bs
unfolding Text.length
length-prefixed_hex bs = omega (arith, length-hex_of bs)

-- The keys of entries have one length, that of the hash in the middle.
module _ (hash : String → List ℕ) (n : ℕ) (sized : (s : String) → length (hash s) ≡ n) where
  hashed-length :
      (o : Option String) (key : String)
      → Option.map (λ sig. prefixed_hex (hash sig)) o ≡ some key
      → Text.length key ≡ 2 + 2 * n
  hashed-length none key h = absurd (cc h)
  hashed-length (some s) key h =
      let same : prefixed_hex (hash s) ≡ key = cc h in
      subst (λ k. Text.length k ≡ 2 + 2 * n) same
        (omega (arith, length-prefixed_hex (hash s), sized s))

  pub topic-length :
      (e : Value) (key : String) → event_topic0 hash e ≡ some key → Text.length key ≡ 2 + 2 * n
  unfolding event_topic0
  topic-length e key h = hashed-length (canonical_event_signature e) key h

  pub selector-length :
      (e : Value) (key : String) → function_selector hash e ≡ some key → Text.length key ≡ 2 + 2 * n
  unfolding function_selector
  selector-length e key h = hashed-length (canonical_function_signature e) key h

module _ (kind : String) (key_of : Value → Option String) (n : ℕ)
    (sized : (e : Value) (key : String) → key_of e ≡ some key → Text.length key ≡ n) where
  -- What is found under a key has a key of that length.
  find_entry-length :
      (key : String) (vs : Values) (e : Value)
      → find_entry kind key_of key vs ≡ some e
      → Text.length key ≡ n
  unfolding find_entry
  find_entry-length key nil e h = absurd (cc h)
  find_entry-length key (cons v vs) e h = checked (is_dict v) (find_entry-length key vs e) h
    where
      tested :
          (k : String)
          → key_of v ≡ some k
          → (b : Bool) → (lower k == key) ≡ b
          → (find_entry kind key_of key vs ≡ some e → Text.length key ≡ n)
          → (elim b [ true ↦ some v | false ↦ find_entry kind key_of key vs ]) ≡ some e
          → Text.length key ≡ n
      tested k hk true b more h =
          subst (λ s. Text.length s ≡ n) (==→≡ b) (length-lower k ∙ sized v k hk)
      tested k hk false b more h = more h

      keyed :
          (o : Option String)
          → key_of v ≡ o
          → (find_entry kind key_of key vs ≡ some e → Text.length key ≡ n)
          → (elim o [
            | none ↦ none
            | some k ↦ elim (lower k == key) [
              | true ↦ some v
              | false ↦ find_entry kind key_of key vs
            ]
          ])
            ≡ some e
          → Text.length key ≡ n
      keyed none hk more h = absurd (cc h)
      keyed (some k) hk more h = tested k hk (lower k == key) refl more h

      typed :
          (b : Bool)
          → (find_entry kind key_of key vs ≡ some e → Text.length key ≡ n)
          → (elim b [
            | false ↦ find_entry kind key_of key vs
            | true ↦ elim (key_of v) [
              | none ↦ none
              | some k ↦ elim (lower k == key) [
                | true ↦ some v
                | false ↦ find_entry kind key_of key vs
              ]
            ]
          ])
            ≡ some e
          → Text.length key ≡ n
      typed false more h = more h
      typed true more h = keyed (key_of v) refl more h

      checked :
          (b : Bool)
          → (find_entry kind key_of key vs ≡ some e → Text.length key ≡ n)
          → (elim b [
            | false ↦ none
            | true ↦ elim (has_type kind v) [
              | false ↦ find_entry kind key_of key vs
              | true ↦ elim (key_of v) [
                | none ↦ none
                | some k ↦ elim (lower k == key) [
                  | true ↦ some v
                  | false ↦ find_entry kind key_of key vs
                ]
              ]
            ]
          ])
            ≡ some e
          → Text.length key ≡ n
      checked false more h = absurd (cc h)
      checked true more h = typed (has_type kind v) more h

  pub entry_of-length :
      (abi_id key : String) (r : AbiRegistry) (e : Value)
      → entry_of kind key_of abi_id key r ≡ some e
      → Text.length key ≡ n
  unfolding entry_of
  entry_of-length abi_id key r e h = stored (get_body abi_id r) h
    where
      stored :
          (o : Option Value)
          → (elim o [ none ↦ none | some body ↦ find_entry kind key_of key (entries_of body) ])
            ≡ some e
          → Text.length key ≡ n
      stored none h = absurd (cc h)
      stored (some body) h = find_entry-length key (entries_of body) e h

module _ (kind : String) (key_of : Value → Option String) (close : Value → Decoder)
    (abi_id key : String) (r : AbiRegistry) where
  -- The answer is the one of the search, if what is cached under the key is.
  pub get_decoder-answer :
      ((d : Decoder)
        → get (abi_id, lower key) r.decoders ≡ some d
        → Option.map close (entry_of kind key_of abi_id (lower key) r) ≡ some d)
      → (get_decoder kind key_of close abi_id key r).0
        ≡ Option.map close (entry_of kind key_of abi_id (lower key) r)
  unfolding get_decoder
  get_decoder-answer h = elim (Option-cases (get (abi_id, lower key) r.decoders)) [
    | inr (d, e) ↦ rw (e, get_decoder) (sym (h d e))
    | inl e ↦ elim (Option-cases (entry_of kind key_of abi_id (lower key) r)) [
      | inl n ↦ rw (e, get_decoder) (rw n refl)
      | inr (v, s) ↦ rw (e, get_decoder) (rw s refl)
    ]
  ]

  -- What holds of a registry, and stays so when what is found is cached, holds after the call.
  pub get_decoder-keeps :
      (P : AbiRegistry → Type 0)
      → P r
      → ((e : Value)
          → entry_of kind key_of abi_id (lower key) r ≡ some e
          → P (record r { decoders = put (abi_id, lower key) (close e) r.decoders }))
      → P (get_decoder kind key_of close abi_id key r).1
  unfolding get_decoder
  get_decoder-keeps P h g = elim (Option-cases (get (abi_id, lower key) r.decoders)) [
    | inr (d, e) ↦ rw (e, get_decoder) h
    | inl e ↦ elim (Option-cases (entry_of kind key_of abi_id (lower key) r)) [
      | inl n ↦ rw (e, get_decoder) (rw n h)
      | inr (v, s) ↦ rw (e, get_decoder) (rw s (g v s))
    ]
  ]

abbrev same_pair : String × String → String × String → Bool
same_pair p q = p == q

module _ (event_signature_to_log_topic function_signature_to_4byte_selector : String → List ℕ) where
  -- Caching the decoder of an entry that the ABI has keeps the invariant.
  pub put-IsCoherent :
      (abi_id key : String) (d : Decoder) (r : AbiRegistry)
      → IsDecoderOf event_signature_to_log_topic function_signature_to_4byte_selector r abi_id key d
      → IsCoherent event_signature_to_log_topic function_signature_to_4byte_selector r
      → IsCoherent event_signature_to_log_topic function_signature_to_4byte_selector
          (record r { decoders = put (abi_id, key) d r.decoders })
  unfolding entry_of get_body
  put-IsCoherent abi_id key d r h c = record {
    decoders_agree = λ i k d' e. elim (Bool-cases (same_pair (abi_id, key) (i, k))) [
      | inl b ↦
          let same : (abi_id, key) ≡ (i, k) = ==→≡ b in
          let here : d ≡ d' = some_inj (
            sym (get-put_self (abi_id, key) d r.decoders)
            ∙ subst (λ p. get p (put (abi_id, key) d r.decoders) ≡ some d') (sym same) e) in
          subst
            (λ p.
              IsDecoderOf event_signature_to_log_topic function_signature_to_4byte_selector r p.0
                p.1 d')
            same
            (subst
              (λ x.
                IsDecoderOf event_signature_to_log_topic function_signature_to_4byte_selector r
                  abi_id key x)
              here h)
      | inr b ↦ c.decoders_agree i k d' (sym (get-put_ne (abi_id, key) (i, k) d r.decoders b) ∙ e)
    ];
    topics_agree = c.topics_agree;
    selectors_agree = c.selectors_agree;
    anchors_agree = c.anchors_agree;
    calls_agree = c.calls_agree;
  }
    where
      some_inj : {a b : Decoder} → some a ≡ some b → a ≡ b
      some_inj e = cc e
