-- ===== src/Abi/Decoder.antt =====
-- core/abi/decoder.py: the arguments of a log and of a call. The decoder of eth-abi and the hashes of
-- signatures are parameters, where `none` is one of the exceptions that the source catches.
pub mod Laws
use mathlib.Core.Option
use chain_indexer.Base.{
  ℕ, zero, suc, ◌+◌, ◌*◌, String, Bool, true, false, not, ◌&&◌, ◌||◌, Option, none, some, List, [],
  ◌∷◌, length, ltb, leb, ◌==◌, nat_comparable, string_comparable, if◌then◌else◌,
}
use chain_indexer.Base.Int.{ℤ, pos, negsuc}
use chain_indexer.Base.Text
use chain_indexer.Base.Text.{lower, chars, starts_with, ends_with, remove_prefix, hex_digit}
use chain_indexer.Notify.Payload.{hex_of}
use chain_indexer.Parse.Bytes.{take, drop}
use chain_indexer.Parse.Hex.{decimal_ℤ}
use chain_indexer.Parse.Value.{
  Value, null, bool, int, str, bytes, list, tuple, dict, Values, nil, cons, Fields, end, field,
  lookup_field, to_int,
}
use chain_indexer.Abi.Signature.{
  text_of, inputs_of, canonical_type, prefixed_hex, function_selector,
}

-- What a decoder does: give the arguments, raise DecodeFailed, or raise another exception.
pub data Decoded : Type 0 where
  decoded : Fields → Decoded
  decode_failed : Decoded
  raised : Decoded

-- `args[name] = v`: a key that is there keeps its place.
unfoldable pub set_field : String → Value → Fields → Fields
set_field k v end = field k v end
set_field k v (field j w fs) = if j == k then field j v fs else field j w (set_field k v fs)

abbrev pub is_blank : ℕ → Bool
is_blank c = (c == 32) || (leb 9 c && leb c 13)

abbrev pub byte_of : Option ℕ → Option ℕ → Option ℕ
byte_of (some a) (some b) = some (a * 16 + b)
byte_of a b = none

abbrev pub before : Option ℕ → Option (List ℕ) → Option (List ℕ)
before (some b) (some bs) = some (b ∷ bs)
before b bs = none

-- `bytes.fromhex(s)`, by the code points of `s`; blanks may stand between the bytes.
unfoldable pub from_hex : List ℕ → Option (List ℕ)
unfolding hex_digit
from_hex [] = some []
from_hex (c ∷ []) = if is_blank c then some [] else none
from_hex (c ∷ d ∷ cs) = elim (is_blank c) [
  | true ↦ from_hex (d ∷ cs)
  | false ↦ before (byte_of (hex_digit c) (hex_digit d)) (from_hex cs)
]

-- Python's truth of a value.
abbrev truthy : Value → Bool
truthy null = false
truthy (bool b) = b
truthy (int (pos zero)) = false
truthy (int n) = true
truthy (str s) = not (s == "")
truthy (bytes []) = false
truthy (bytes (b ∷ bs)) = true
truthy (list nil) = false
truthy (list (cons v vs)) = true
truthy (tuple nil) = false
truthy (tuple (cons v vs)) = true
truthy (dict end) = false
truthy (dict (field k v fs)) = true

-- `inp.get("indexed")`
unfoldable pub is_indexed : Value → Bool
unfolding lookup_field
is_indexed (dict fs) = elim (lookup_field "indexed" fs) [ none ↦ false | some v ↦ truthy v ]
is_indexed v = false

-- The two halves of `_split_indexed`.
unfoldable pub indexed : Values → Values
unfolding is_indexed
indexed nil = nil
indexed (cons inp inps) = if is_indexed inp then cons inp (indexed inps) else indexed inps

unfoldable pub not_indexed : Values → Values
unfolding is_indexed
not_indexed nil = nil
not_indexed (cons inp inps) =
    if is_indexed inp then not_indexed inps else cons inp (not_indexed inps)

abbrev pub count : Values → ℕ
count nil = 0
count (cons v vs) = suc (count vs)

abbrev lower_text : Value → Option Value
lower_text (str s) = some (str (lower s))
lower_text v = none

abbrev hex_bytes : Value → Option Value
hex_bytes (bytes bs) = some (str (prefixed_hex bs))
hex_bytes v = none

unfoldable pub normalize_value : String → Value → Option Value
unfolding lower starts_with ends_with to_int hex_of
normalize_value t v =
    if t == "address"
    then lower_text v
    else if (starts_with t "uint" || starts_with t "int") && not (ends_with t "]")
    then Option.map (λ n. str (decimal_ℤ n)) (to_int v)
    else if starts_with t "bytes" && not (ends_with t "]")
    then hex_bytes v
    else some v

-- The types whose values a topic holds as a hash.
unfoldable pub is_reference : String → Bool
unfolding starts_with ends_with
is_reference t = (t == "string") || (t == "bytes") || ends_with t "]" || starts_with t "("

-- `[_canonical_type(i) for i in inputs]`
unfoldable pub types_of : Values → Option (List String)
unfolding canonical_type
types_of nil = some []
types_of (cons inp inps) = elim (canonical_type inp) [
  | none ↦ none
  | some t ↦ Option.map (λ ts. t ∷ ts) (types_of inps)
]

-- `args[inp["name"]] = v`
abbrev pub store : Value → Option Value → Fields → Option Fields
store inp none args = none
store inp (some v) args = Option.map (λ name. set_field name v args) (text_of "name" inp)

-- One value for each input, else the ValueError of a strict zip.
unfoldable pub store_all : Values → List Value → Fields → Option Fields
unfolding canonical_type normalize_value text_of set_field
store_all nil [] args = some args
store_all (cons inp inps) (v ∷ vs) args = elim (canonical_type inp) [
  | none ↦ none
  | some t ↦ elim (store inp (normalize_value t v) args) [
    | none ↦ none
    | some args' ↦ store_all inps vs args'
  ]
]
store_all inps vs args = none

abbrev pub stored : Option Fields → Decoded
stored none = raised
stored (some args) = decoded args

module _ (eth_abi_decode : List String → List ℕ → Option (List Value)) where
  abbrev pub decode_one : String → Option (List ℕ) → Option Value
  decode_one t none = none
  decode_one t (some raw) = elim (eth_abi_decode (t ∷ []) raw) [
    | some (v ∷ vs) ↦ normalize_value t v
    | _ ↦ none
  ]

  -- The value of a topic: the hash itself for a reference type.
  unfoldable pub topic_value : String → String → Option Value
  unfolding is_reference from_hex chars remove_prefix normalize_value
  topic_value t topic =
      if is_reference t
      then some (str topic)
      else decode_one t (from_hex (chars (remove_prefix topic "0x")))

  unfoldable pub decode_topics : Values → List String → Fields → Option Fields
  unfolding canonical_type topic_value text_of set_field
  decode_topics nil [] args = some args
  decode_topics (cons inp inps) (topic ∷ topics) args = elim (canonical_type inp) [
    | none ↦ none
    | some t ↦ elim (store inp (topic_value t topic) args) [
      | none ↦ none
      | some args' ↦ decode_topics inps topics args'
    ]
  ]
  decode_topics inps topics args = none

  -- The values of the inputs that the bytes encode, stored under their names.
  abbrev pub decode_values : Values → Option (List ℕ) → Fields → Decoded
  decode_values inps none args = raised
  decode_values inps (some raw) args = elim (types_of inps) [
    | none ↦ raised
    | some ts ↦ elim (eth_abi_decode ts raw) [
      | none ↦ decode_failed
      | some vs ↦ stored (store_all inps vs args)
    ]
  ]

  abbrev pub decode_data : Values → String → Fields → Decoded
  decode_data nil payload args = decoded args
  decode_data (cons inp inps) payload args =
      decode_values (cons inp inps) (from_hex (chars (remove_prefix payload "0x"))) args

  abbrev pub decode_inputs : Values → List String → String → Decoded
  decode_inputs inps [] payload = decode_failed
  decode_inputs inps (topic0 ∷ topics) payload =
      if length topics == count (indexed inps)
      then elim (decode_topics (indexed inps) topics end) [
        | none ↦ raised
        | some args ↦ decode_data (not_indexed inps) payload args
      ]
      else decode_failed

  unfoldable pub decode_event : Value → List String → String → Decoded
  unfolding inputs_of indexed not_indexed decode_topics types_of store_all from_hex chars
      remove_prefix
  decode_event event_abi topics payload = elim (inputs_of event_abi) [
    | none ↦ raised
    | some inps ↦ decode_inputs inps topics payload
  ]

  module _ (function_signature_to_4byte_selector : String → List ℕ) where
    abbrev pub decode_calldata : Value → String → List ℕ → Decoded
    decode_calldata fn_abi expected raw =
        if ltb (length raw) 4
        then decode_failed
        else if prefixed_hex (take 4 raw) == expected
        then elim (inputs_of fn_abi) [
          | none ↦ raised
          | some inps ↦ decode_values inps (some (drop 4 raw)) end
        ]
        else decode_failed

    unfoldable pub decode_function_call : Value → String → Decoded
    unfolding function_selector from_hex chars remove_prefix take drop hex_of inputs_of types_of
        store_all
    decode_function_call fn_abi calldata =
        elim (function_selector function_signature_to_4byte_selector fn_abi) [
          | none ↦ raised
          | some expected ↦ elim (from_hex (chars (remove_prefix calldata "0x"))) [
            | none ↦ raised
            | some raw ↦ decode_calldata fn_abi expected raw
          ]
        ]
