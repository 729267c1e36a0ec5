-- ===== src/Abi/Registry/Coherent/Lookups.antt =====
-- core/abi/registry.py: what the lookups answer, and what they leave in the caches.
use mathlib.Core.Option
use chain_indexer.Base.{
  ℕ, ◌≡◌, refl, sym, subst, ap, ◌∙◌, String, Option, none, some, List, length, arith, ◌==◌,
  string_comparable, pair_comparable, ==→≡, Bool-cases, Option-cases, inl, inr, ◌⊎◌,
}
use chain_indexer.Base.Text
use chain_indexer.Base.Text.{lower, length-lower}
use chain_indexer.Base.Dict.{Dict, get, put, get-put_self, get-put_ne}
use chain_indexer.Parse.Value.{Value}
use chain_indexer.Abi.Signature.{event_topic0, function_selector}
use chain_indexer.Abi.Registry.{AbiRegistry, Decoder, of_event, of_function}
use chain_indexer.Abi.Registry.Lookup.{
  Found, found, entry_of, get_body, get_event_decoder, cache_topic0, lookup_event_by_topic0,
}
use chain_indexer.Abi.Registry.Coherent.{event_of, IsDecoderOf, named, event_answer, IsCoherent}
use chain_indexer.Abi.Registry.Coherent.Decoders.{
  entry_of-length, selector-length, get_decoder-answer, get_decoder-keeps, put-IsCoherent,
}

-- What a lookup leaves as it is.
pub record SameAbis (r s : AbiRegistry) : Type 0 where
  pub abis_same : s.abis ≡ r.abis
  pub topics_same : s.topic0_index ≡ r.topic0_index
  pub selectors_same : s.selector_index ≡ r.selector_index
  pub anchors_same : s.anchor_index ≡ r.anchor_index
  pub calls_same : s.anchor_call_index ≡ r.anchor_call_index
  pub hashes_same : s.hashes ≡ r.hashes

pub unchanged : (r : AbiRegistry) → SameAbis r r
unchanged r = record {
  abis_same = refl;
  topics_same = refl;
  selectors_same = refl;
  anchors_same = refl;
  calls_same = refl;
  hashes_same = refl;
}

-- What is put under one key is found there, and everything else as before.
pub get-put_cases {ℓ} :
    {V : Type ℓ} (k j : String) (v w : V) (m : Dict String V)
    → get j (put k v m) ≡ some w
    → ((k ≡ j) × (v ≡ w)) ⊎ (get j m ≡ some w)
get-put_cases {V} k j v w m h = elim (Bool-cases (k == j)) [
  | inl b ↦
      let same : k ≡ j = ==→≡ b in
      inl (
        same,
        some_inj (sym (get-put_self k v m) ∙ subst (λ i. get i (put k v m) ≡ some w) (sym same) h),
      )
  | inr b ↦ inr (sym (get-put_ne k j v m b) ∙ h)
]
  where
    some_inj : {a b : V} → some a ≡ some b → a ≡ b
    some_inj e = cc e

module _ (kind : String) (key_of : Value → Option String) where
  -- The search of an ABI reads the ABIs only.
  pub entry_of-same :
      (abi_id key : String) (r s : AbiRegistry)
      → SameAbis r s
      → entry_of kind key_of abi_id key s ≡ entry_of kind key_of abi_id key r
  unfolding entry_of get_body
  entry_of-same abi_id key r s h = rw h.abis_same refl

module _ (event_signature_to_log_topic function_signature_to_4byte_selector : String → List ℕ)
    (selector_sized : (s : String) → length (function_signature_to_4byte_selector s) ≡ 4) where
  abbrev IsKept : AbiRegistry → AbiRegistry → Type 0
  IsKept r s =
      IsCoherent event_signature_to_log_topic function_signature_to_4byte_selector s
      × SameAbis r s
      × (s.topic0_cache ≡ r.topic0_cache)

  -- A decoder that is cached under a topic is not one of a function, whose key is shorter.
  event_decoder-cached :
      (abi_id key : String) (r : AbiRegistry) (d : Decoder)
      → Text.length key ≡ 66
      → IsDecoderOf event_signature_to_log_topic function_signature_to_4byte_selector r abi_id key d
      → Option.map of_event
          (event_of event_signature_to_log_topic function_signature_to_4byte_selector abi_id key r)
        ≡ some d
  event_decoder-cached abi_id key r (of_event e) l h = rw h refl
  event_decoder-cached abi_id key r (of_function f) l h =
      let short : Text.length key ≡ 10 =
        entry_of-length "function" (function_selector function_signature_to_4byte_selector) 10
          (selector-length function_signature_to_4byte_selector 4 selector_sized) abi_id key r f
          h in
      absurd (omega (arith, l, short))

  -- The answer, with the caches in agreement and the ABIs and indexes as before.
  abbrev pub IsAnswered :
      AbiRegistry → Found (String × Decoder) × AbiRegistry → Found (String × Decoder) → Type 0
  IsAnswered r out answer =
      (out.0 ≡ answer)
      × IsCoherent event_signature_to_log_topic function_signature_to_4byte_selector out.1
      × SameAbis r out.1

  cache-SameAbis :
      (key : String) (h : String × Decoder) (r s : AbiRegistry)
      → SameAbis r s
      → SameAbis r (record s { topic0_cache = put key h s.topic0_cache })
  cache-SameAbis key h r s k = record {
    abis_same = k.abis_same;
    topics_same = k.topics_same;
    selectors_same = k.selectors_same;
    anchors_same = k.anchors_same;
    calls_same = k.calls_same;
    hashes_same = k.hashes_same;
  }

  -- Caching an answer keeps the invariant.
  cache-IsCoherent :
      (key : String) (h : String × Decoder) (s : AbiRegistry)
      → event_answer event_signature_to_log_topic function_signature_to_4byte_selector s key
          (get key s.topic0_index)
        ≡ found h
      → IsCoherent event_signature_to_log_topic function_signature_to_4byte_selector s
      → IsCoherent event_signature_to_log_topic function_signature_to_4byte_selector
          (record s { topic0_cache = put key h s.topic0_cache })
  unfolding entry_of get_body
  cache-IsCoherent key h s a k = record {
    decoders_agree = k.decoders_agree;
    topics_agree = λ j g e. elim (get-put_cases key j h g s.topic0_cache e) [
      | inr e' ↦ k.topics_agree j g e'
      | inl (same, that) ↦
          subst
            (λ i.
              event_answer event_signature_to_log_topic function_signature_to_4byte_selector s i
                (get i s.topic0_index)
              ≡ found g)
            same (a ∙ ap found that)
    ];
    selectors_agree = k.selectors_agree;
    anchors_agree = k.anchors_agree;
    calls_agree = k.calls_agree;
  }

  -- What the index and the ABIs answer in a registry with the same ones.
  hit :
      (topic0 abi_id name : String) (v : Value) (r s : AbiRegistry)
      → get (lower topic0) r.topic0_index ≡ some (abi_id, name)
      → event_of event_signature_to_log_topic function_signature_to_4byte_selector abi_id
          (lower topic0)
          r
        ≡ some v
      → SameAbis r s
      → event_answer event_signature_to_log_topic function_signature_to_4byte_selector s
          (lower topic0)
          (get (lower topic0) s.topic0_index)
        ≡ found (name, of_event v)
  hit topic0 abi_id name v r s i f k =
      ap
        (λ o.
          event_answer event_signature_to_log_topic function_signature_to_4byte_selector s
            (lower topic0) o)
        (ap (get (lower topic0)) k.topics_same ∙ i)
      ∙ ap (named event_signature_to_log_topic function_signature_to_4byte_selector of_event name) (
          entry_of-same "event" (event_topic0 event_signature_to_log_topic) abi_id (lower topic0) r
            s k
          ∙ f)

  module _ (topic0 : String) (r : AbiRegistry) (sized : Text.length topic0 ≡ 66)
      (c : IsCoherent event_signature_to_log_topic function_signature_to_4byte_selector r) where
    event_decoder-answer :
        (abi_id : String)
        → (get_event_decoder event_signature_to_log_topic function_signature_to_4byte_selector
            abi_id topic0 r).0
          ≡ Option.map of_event (
              event_of event_signature_to_log_topic function_signature_to_4byte_selector abi_id
                (lower topic0)
                r)
    event_decoder-answer abi_id =
        get_decoder-answer "event" (event_topic0 event_signature_to_log_topic) of_event abi_id
          topic0 r
          (λ d e.
            event_decoder-cached abi_id (lower topic0) r d (length-lower topic0 ∙ sized)
              (c.decoders_agree abi_id (lower topic0) d e))

    event_decoder-keeps :
        (abi_id : String)
        → IsKept r
            (get_event_decoder event_signature_to_log_topic function_signature_to_4byte_selector
              abi_id topic0 r).1
    event_decoder-keeps abi_id =
        get_decoder-keeps "event" (event_topic0 event_signature_to_log_topic) of_event abi_id topic0
          r (IsKept r) (c, unchanged r, refl)
          (λ e h. (
            put-IsCoherent event_signature_to_log_topic function_signature_to_4byte_selector abi_id
                (lower topic0) (of_event e) r h c,
            record {
              abis_same = refl;
              topics_same = refl;
              selectors_same = refl;
              anchors_same = refl;
              calls_same = refl;
              hashes_same = refl;
            },
            refl,
          ))

    -- What the lookup does with the decoder: cache the answer, or raise.
    cached :
        (abi_id name : String) (o : Option Value) (out : Option Decoder × AbiRegistry)
        → get (lower topic0) r.topic0_index ≡ some (abi_id, name)
        → event_of event_signature_to_log_topic function_signature_to_4byte_selector abi_id
            (lower topic0)
            r
          ≡ o
        → out.0 ≡ Option.map of_event o
        → IsKept r out.1
        → IsAnswered r (cache_topic0 (lower topic0) name out) (
            named event_signature_to_log_topic function_signature_to_4byte_selector of_event name o)
    cached abi_id name none (none, s) i f e k = (refl, k.0, k.1)
    cached abi_id name none (some d, s) i f e k = absurd (cc e)
    cached abi_id name (some v) (none, s) i f e k = absurd (cc e)
    cached abi_id name (some v) (some d, s) i f e k =
        let d_is : d ≡ of_event v = cc e in
        (
          ap (λ x. found (name, x)) d_is,
          cache-IsCoherent (lower topic0) (name, d) s
              (hit topic0 abi_id name v r s i f k.1 ∙ ap (λ x. found (name, x)) (sym d_is)) k.0,
          cache-SameAbis (lower topic0) (name, d) r s k.1,
        )

    lookup_cases :
        IsAnswered r
          (lookup_event_by_topic0 event_signature_to_log_topic function_signature_to_4byte_selector
            topic0 r)
          (event_answer event_signature_to_log_topic function_signature_to_4byte_selector r
            (lower topic0)
            (get (lower topic0) r.topic0_index))
    unfolding lookup_event_by_topic0
    lookup_cases = elim (Option-cases (get (lower topic0) r.topic0_cache)) [
      | inr (hit, e) ↦
          rw (e, lookup_event_by_topic0) (sym (c.topics_agree (lower topic0) hit e), c, unchanged r)
      | inl e ↦ elim (Option-cases (get (lower topic0) r.topic0_index)) [
        | inl n ↦ rw (e, lookup_event_by_topic0) (rw n (refl, c, unchanged r))
        | inr ((abi_id, name), i) ↦
            rw (e, lookup_event_by_topic0)
              (rw i (
                cached abi_id name
                  (event_of event_signature_to_log_topic function_signature_to_4byte_selector abi_id
                    (lower topic0) r)
                  (get_event_decoder event_signature_to_log_topic
                    function_signature_to_4byte_selector abi_id topic0 r)
                  i refl (event_decoder-answer abi_id) (event_decoder-keeps abi_id)))
      ]
    ]

  -- With the caches in agreement with the ABIs, a lookup by a topic of 66 characters answers as if nothing
  -- were cached: with the decoder of the entry of the ABI that the index names, in any case of letters. The
  -- caches stay in agreement, and the ABIs and indexes as they were. Selectors are four bytes long.
  pub lookup_event_by_topic0-answer :
      (topic0 : String) (r : AbiRegistry)
      → Text.length topic0 ≡ 66
      → IsCoherent event_signature_to_log_topic function_signature_to_4byte_selector r
      → IsAnswered r
          (lookup_event_by_topic0 event_signature_to_log_topic function_signature_to_4byte_selector
            topic0 r)
          (event_answer event_signature_to_log_topic function_signature_to_4byte_selector r
            (lower topic0)
            (get (lower topic0) r.topic0_index))
  lookup_event_by_topic0-answer topic0 r sized c = lookup_cases topic0 r sized c
