-- ===== src/Abi/Decoder/Laws/Names.antt =====
-- core/abi/decoder.py: the names of a decoded event.
use mathlib.Core.Option
use chain_indexer.Base.{
  ℕ, suc, ◌≡◌, refl, subst, ap, ◌∙◌, String, Bool, true, false, Option, none, some, List, [], ◌∷◌,
  length, ◌==◌, string_comparable, nat_comparable, ==→≡, ==_refl, Bool-cases, Option-cases, inl,
  inr, if◌then◌else◌,
}
use chain_indexer.Base.Text.{chars, remove_prefix}
use chain_indexer.Parse.Value.{Value, Values, nil, cons, Fields, end, field}
use chain_indexer.Abi.Signature.{text_of, inputs_of, canonical_type}
use chain_indexer.Abi.Decoder.{
  Decoded, decoded, decode_failed, raised, from_hex, set_field, is_indexed, indexed, not_indexed,
  count, normalize_value, store, store_all, stored, types_of, decode_topics, decode_values,
  decode_data, decode_inputs, decode_event, topic_value,
}

abbrev pub has_key : String → Fields → Bool
has_key k end = false
has_key k (field j v fs) = if j == k then true else has_key k fs

has_key-set_field : (k : String) (v : Value) (fs : Fields) → has_key k (set_field k v fs) ≡ true
unfolding set_field
has_key-set_field k v end = rw (==_refl k) refl
has_key-set_field k v (field j w fs) = elim (Bool-cases (j == k)) [
  | inl b ↦ rw (b, set_field) (rw b refl)
  | inr b ↦ rw (b, set_field) (rw b (has_key-set_field k v fs))
]

has_key-set_other :
    (j k : String) (v : Value) (fs : Fields)
    → has_key j fs ≡ true
    → has_key j (set_field k v fs) ≡ true
unfolding set_field
has_key-set_other j k v end h = absurd (cc h)
has_key-set_other j k v (field i w fs) h = elim (Bool-cases (i == k)) [
  | inl b ↦ rw (b, set_field) h
  | inr b ↦ elim (Bool-cases (i == j)) [
    | inl c ↦ rw (b, set_field) (rw c refl)
    | inr c ↦
        rw (b, set_field)
          (rw c (
            has_key-set_other j k v fs
              (subst (λ t. (if t then true else has_key j fs) ≡ true) c h)))
  ]
]

some_inj : {fs gs : Fields} → some fs ≡ some gs → fs ≡ gs
some_inj e = cc e

-- The input has a name, and the arguments have a value under it.
pub record IsNamed (args : Fields) (inp : Value) : Type 0 where
  name : String
  named : text_of "name" inp ≡ some name
  valued : has_key name args ≡ true

abbrev pub AllNamed : Fields → Values → Type 0
AllNamed args nil = Unit
AllNamed args (cons inp inps) = IsNamed args inp × AllNamed args inps

-- Names are only added.
abbrev pub Grown : Fields → Fields → Type 0
Grown args out = (j : String) → has_key j args ≡ true → has_key j out ≡ true

kept-IsNamed :
    (args out : Fields) (inp : Value) → Grown args out → IsNamed args inp → IsNamed out inp
kept-IsNamed args out inp g h = record {
  name = h.name;
  named = h.named;
  valued = g h.name h.valued;
}

kept-AllNamed :
    (args out : Fields) (inps : Values) → Grown args out → AllNamed args inps → AllNamed out inps
kept-AllNamed args out nil g h = tt
kept-AllNamed args out (cons inp inps) g h =
    (kept-IsNamed args out inp g h.0, kept-AllNamed args out inps g h.1)

store-IsNamed :
    (inp : Value) (v : Option Value) (args out : Fields)
    → store inp v args ≡ some out
    → Grown args out × IsNamed out inp
store-IsNamed inp none args out e = absurd (cc e)
store-IsNamed inp (some v) args out e = elim (Option-cases (text_of "name" inp)) [
  | inl n ↦ absurd (cc (subst (λ o. Option.map (λ name. set_field name v args) o ≡ some out) n e))
  | inr (name, n) ↦
      let made : set_field name v args ≡ out =
        some_inj (subst (λ o. Option.map (λ k. set_field k v args) o ≡ some out) n e) in
      (
        λ j h. subst (λ fs. has_key j fs ≡ true) made (has_key-set_other j name v args h),
        record {
          name = name;
          named = n;
          valued = subst (λ fs. has_key name fs ≡ true) made (has_key-set_field name v args);
        },
      )
]

-- What a loop does for its next input.
abbrev pub stores_next :
    Option String
    → (String → Option Value)
    → Value
    → Fields
    → (Fields → Option Fields)
    → Option Fields
stores_next t value inp args rest = elim t [
  | none ↦ none
  | some t ↦ elim (store inp (value t) args) [ none ↦ none | some args' ↦ rest args' ]
]

stores_next-AllNamed :
    (t : Option String) (value : String → Option Value) (inp : Value) (inps : Values)
    (args out : Fields) (rest : Fields → Option Fields)
    → ((mid : Fields) → rest mid ≡ some out → Grown mid out × AllNamed out inps)
    → stores_next t value inp args rest ≡ some out
    → Grown args out × AllNamed out (cons inp inps)
stores_next-AllNamed none value inp inps args out rest more e = absurd (cc e)
stores_next-AllNamed (some t) value inp inps args out rest more e =
    opened (store inp (value t) args) (store-IsNamed inp (value t) args) e
  where
    opened :
        (o : Option Fields)
        → ((mid : Fields) → o ≡ some mid → Grown args mid × IsNamed mid inp)
        → (elim o [ none ↦ none | some args' ↦ rest args' ]) ≡ some out
        → Grown args out × AllNamed out (cons inp inps)
    opened none h e = absurd (cc e)
    opened (some mid) h e =
        let g = h mid refl in
        let k = more mid e in (λ j b. k.0 j (g.0 j b), (kept-IsNamed mid out inp k.0 g.1, k.1))

same-Grown : (args out : Fields) → some args ≡ some out → Grown args out
same-Grown args out e j h = subst (λ fs. has_key j fs ≡ true) (some_inj e) h

store_all-AllNamed :
    (inps : Values) (vs : List Value) (args out : Fields)
    → store_all inps vs args ≡ some out
    → Grown args out × AllNamed out inps
unfolding store_all
store_all-AllNamed nil [] args out e = (same-Grown args out e, tt)
store_all-AllNamed nil (v ∷ vs) args out e = absurd (cc e)
store_all-AllNamed (cons inp inps) [] args out e = absurd (cc e)
store_all-AllNamed (cons inp inps) (v ∷ vs) args out e =
    stores_next-AllNamed (canonical_type inp) (λ t. normalize_value t v) inp inps args out
      (store_all inps vs) (λ mid. store_all-AllNamed inps vs mid out) e

-- The two halves of the inputs together.
split-AllNamed :
    (out : Fields) (inps : Values)
    → AllNamed out (indexed inps)
    → AllNamed out (not_indexed inps)
    → AllNamed out inps
unfolding indexed not_indexed
split-AllNamed out nil h k = tt
split-AllNamed out (cons inp inps) h k = elim (Bool-cases (is_indexed inp)) [
  | inl b ↦
      let h' =
        subst (λ t. AllNamed out (if t then cons inp (indexed inps) else indexed inps)) b h in
      let k' =
        subst (λ t. AllNamed out (if t then not_indexed inps else cons inp (not_indexed inps))) b
          k in
      (h'.0, split-AllNamed out inps h'.1 k')
  | inr b ↦
      let h' =
        subst (λ t. AllNamed out (if t then cons inp (indexed inps) else indexed inps)) b h in
      let k' =
        subst (λ t. AllNamed out (if t then not_indexed inps else cons inp (not_indexed inps))) b
          k in
      (k'.0, split-AllNamed out inps h' k'.1)
]

module _ (eth_abi_decode : List String → List ℕ → Option (List Value)) where
  decode_topics-AllNamed :
      (inps : Values) (topics : List String) (args out : Fields)
      → decode_topics eth_abi_decode inps topics args ≡ some out
      → Grown args out × AllNamed out inps
  unfolding decode_topics
  decode_topics-AllNamed nil [] args out e = (same-Grown args out e, tt)
  decode_topics-AllNamed nil (t ∷ ts) args out e = absurd (cc e)
  decode_topics-AllNamed (cons inp inps) [] args out e = absurd (cc e)
  decode_topics-AllNamed (cons inp inps) (t ∷ ts) args out e =
      stores_next-AllNamed (canonical_type inp) (λ ty. topic_value eth_abi_decode ty t) inp inps
        args out (decode_topics eth_abi_decode inps ts)
        (λ mid. decode_topics-AllNamed inps ts mid out) e

  stored-names :
      (inps : Values) (vs : List Value) (args out : Fields)
      → stored (store_all inps vs args) ≡ decoded out
      → Grown args out × AllNamed out inps
  stored-names inps vs args out e = elim (Option-cases (store_all inps vs args)) [
    | inl n ↦ absurd (cc (subst (λ o. stored o ≡ decoded out) n e))
    | inr (got, g) ↦
        let same : got ≡ out = cc (subst (λ o. stored o ≡ decoded out) g e) in
        store_all-AllNamed inps vs args out (g ∙ ap some same)
  ]

  values-names :
      (inps : Values) (raw : Option (List ℕ)) (args out : Fields)
      → decode_values eth_abi_decode inps raw args ≡ decoded out
      → Grown args out × AllNamed out inps
  values-names inps none args out e = absurd (cc e)
  values-names inps (some raw) args out e = typed (types_of inps) e
    where
      answered :
          (o : Option (List Value))
          → (elim o [ none ↦ decode_failed | some vs ↦ stored (store_all inps vs args) ])
            ≡ decoded out
          → Grown args out × AllNamed out inps
      answered none e = absurd (cc e)
      answered (some vs) e = stored-names inps vs args out e

      typed :
          (o : Option (List String))
          → (elim o [
            | none ↦ raised
            | some ts ↦ elim (eth_abi_decode ts raw) [
              | none ↦ decode_failed
              | some vs ↦ stored (store_all inps vs args)
            ]
          ])
            ≡ decoded out
          → Grown args out × AllNamed out inps
      typed none e = absurd (cc e)
      typed (some ts) e = answered (eth_abi_decode ts raw) e

  data-names :
      (inps : Values) (payload : String) (args out : Fields)
      → decode_data eth_abi_decode inps payload args ≡ decoded out
      → Grown args out × AllNamed out inps
  data-names nil payload args out e =
      (λ j h. let same : args ≡ out = cc e in subst (λ fs. has_key j fs ≡ true) same h, tt)
  data-names (cons inp inps) payload args out e =
      values-names (cons inp inps) (from_hex (chars (remove_prefix payload "0x"))) args out e

  inputs-names :
      (inps : Values) (topics : List String) (payload : String) (out : Fields)
      → decode_inputs eth_abi_decode inps topics payload ≡ decoded out
      → (length topics ≡ suc (count (indexed inps))) × AllNamed out inps
  inputs-names inps [] payload out e = absurd (cc e)
  inputs-names inps (topic0 ∷ topics) payload out e =
      elim (Bool-cases (length topics == count (indexed inps))) [
        | inr b ↦ absurd (cc (subst (λ t. (if t then after else decode_failed) ≡ decoded out) b e))
        | inl b ↦ (
          ap suc (==→≡ b),
          given (decode_topics eth_abi_decode (indexed inps) topics end)
              (λ args. decode_topics-AllNamed (indexed inps) topics end args)
              (subst (λ t. (if t then after else decode_failed) ≡ decoded out) b e),
        )
      ]
    where
      after : Decoded
      after = elim (decode_topics eth_abi_decode (indexed inps) topics end) [
        | none ↦ raised
        | some args ↦ decode_data eth_abi_decode (not_indexed inps) payload args
      ]

      given :
          (o : Option Fields)
          → ((args : Fields) → o ≡ some args → Grown end args × AllNamed args (indexed inps))
          → (elim o [
            | none ↦ raised
            | some args ↦ decode_data eth_abi_decode (not_indexed inps) payload args
          ])
            ≡ decoded out
          → AllNamed out inps
      given none h e = absurd (cc e)
      given (some args) h e =
          let rest = data-names (not_indexed inps) payload args out e in
          split-AllNamed out inps (kept-AllNamed args out (indexed inps) rest.0 (h args refl).1)
            rest.1

  -- A log that is decoded has one topic more than the event has indexed inputs, and the arguments have a
  -- value under the name of each input, indexed or not.
  pub decode_event-AllNamed :
      (event_abi : Value) (inps : Values) (topics : List String) (payload : String) (out : Fields)
      → inputs_of event_abi ≡ some inps
      → decode_event eth_abi_decode event_abi topics payload ≡ decoded out
      → (length topics ≡ suc (count (indexed inps))) × AllNamed out inps
  unfolding decode_event
  decode_event-AllNamed event_abi inps topics payload out h e =
      inputs-names inps topics payload out (
        subst
          (λ o.
            (elim o [
              | none ↦ raised
              | some inps ↦ decode_inputs eth_abi_decode inps topics payload
            ])
            ≡ decoded out)
          h e)
