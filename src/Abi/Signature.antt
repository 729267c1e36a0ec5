-- ===== src/Abi/Signature.antt =====
-- core/abi/decoder.py: the signatures of events and functions, and the topics and selectors made of them.
-- The hash of a signature is a parameter. An entry is a JSON value; `none` is an exception. A name, or a
-- type, that is no text is read as an exception, as are inputs that are no list.
use Prim.Native.String.{◌++◌}
use mathlib.Core.Option
use chain_indexer.Base.{
  ℕ, String, true, false, Option, none, some, List, ◌==◌, string_comparable, if◌then◌else◌,
}
use chain_indexer.Base.Text.{ascii, starts_with, drop}
use chain_indexer.Notify.Payload.{hex_of}
use chain_indexer.Parse.Value.{
  Value, str, list, dict, Values, nil, cons, Fields, end, field, lookup_field,
}

-- `e[k]` of an entry that has a text there.
unfoldable pub text_of : String → Value → Option String
unfolding lookup_field
text_of k (dict fs) = elim (lookup_field k fs) [ some (str s) ↦ some s | _ ↦ none ]
text_of k v = none

-- `fn_abi.get("inputs", [])`
unfoldable pub inputs_of : Value → Option Values
unfolding lookup_field
inputs_of (dict fs) = elim (lookup_field "inputs" fs) [
  | none ↦ some nil
  | some (list vs) ↦ some vs
  | _ ↦ none
]
inputs_of v = none

-- `f"({inner}){suffix}"` of a tuple type, and the type itself of any other.
abbrev pub render : Option String → Option String → Option String
render none comps = none
render (some t) comps =
    if starts_with t "tuple"
    then Option.map (λ inner. "(" ++ inner ++ ")" ++ drop 5 t) comps
    else some t

-- `",".join(...)` of a first text and of the rest.
abbrev pub joined : Values → Option String → Option String → Option String
joined nil first rest = first
joined vs none rest = none
joined vs (some s) none = none
joined vs (some s) (some r) = some (s ++ "," ++ r)

-- `components_type` walks the keys of an entry to its components.
unfoldable mutual
  unfolding starts_with drop lookup_field text_of

  pub canonical_type : Value → Option String
  canonical_type (dict fs) = render (text_of "type" (dict fs)) (components_type fs)
  canonical_type v = none

  pub components_type : Fields → Option String
  components_type end = some ""
  components_type (field k v fs) = elim ("components" == k) [
    | true ↦ listed_types v
    | false ↦ components_type fs
  ]

  pub listed_types : Value → Option String
  listed_types (list vs) = joined_types vs
  listed_types v = none

  pub joined_types : Values → Option String
  joined_types nil = some ""
  joined_types (cons v vs) = joined vs (canonical_type v) (joined_types vs)

-- `f"{name}({types})"`
abbrev signature : Value → Option String
signature entry = elim (text_of "name" entry) [
  | none ↦ none
  | some name ↦ elim (inputs_of entry) [
    | none ↦ none
    | some vs ↦ Option.map (λ types. name ++ "(" ++ types ++ ")") (joined_types vs)
  ]
]

unfoldable pub canonical_event_signature : Value → Option String
unfolding text_of inputs_of joined_types
canonical_event_signature event_abi = signature event_abi

unfoldable pub canonical_function_signature : Value → Option String
unfolding text_of inputs_of joined_types
canonical_function_signature fn_abi = signature fn_abi

-- `"0x" + bs.hex()`
abbrev pub prefixed_hex : List ℕ → String
prefixed_hex bs = String.◌∷◌ (ascii 48) (String.◌∷◌ (ascii 120) (hex_of bs))

unfoldable pub event_topic0 : (String → List ℕ) → Value → Option String
unfolding canonical_event_signature hex_of
event_topic0 event_signature_to_log_topic event_abi =
    Option.map (λ sig. prefixed_hex (event_signature_to_log_topic sig))
      (canonical_event_signature event_abi)

unfoldable pub function_selector : (String → List ℕ) → Value → Option String
unfolding canonical_function_signature hex_of
function_selector function_signature_to_4byte_selector fn_abi =
    Option.map (λ sig. prefixed_hex (function_signature_to_4byte_selector sig))
      (canonical_function_signature fn_abi)
