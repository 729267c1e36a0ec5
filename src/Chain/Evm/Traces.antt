-- ===== src/Chain/Evm/Traces.antt =====
-- `_parse_call`, `trace_transaction` and `trace_block` of core/chains/evm.py: the traces of the calls inside a
-- transaction. The request for a trace is a parameter.
use mathlib.Core.Option
use chain_indexer.Base.{
  ℕ, ◌+◌, ◌-◌, String, Bool, true, false, ◌||◌, ◌&&◌, Option, none, some, List, [], ◌∷◌, ltb, leb,
  ◌==◌, string_comparable, if◌then◌else◌,
}
use Prim.Native.Char.{Char, code}
use chain_indexer.Base.Text.{ascii, lower, chars}
use chain_indexer.Chain.Types
use chain_indexer.Chain.Types.{CallFrame, InternalCall, internal_call, InternalCalls}
use chain_indexer.Parse.Hex.{parse_hex}
use chain_indexer.Parse.Value.{
  Value, null, str, list, dict, Values, nil, cons, Fields, end, field, lookup_field,
}
use chain_indexer.Abi.Registry.Lookup.{Found, found, absent, raised}
use chain_indexer.Chain.Evm.{natural, then_do, at_key}

-- `s.upper()` of an ASCII text
unfoldable pub upper_char : Char → Char
upper_char c = if leb 97 (code c) && leb (code c) 122 then ascii (code c - 32) else c

unfoldable pub upper : String → String
unfolding upper_char
upper String.[] = String.[]
upper (String.◌∷◌ c s) = String.◌∷◌ (upper_char c) (upper s)

-- `raw.get(k, default)` of a text
abbrev text_or : String → String → Fields → Option String
text_or k default raw = elim (lookup_field k raw) [
  | none ↦ some default
  | some (str s) ↦ some s
  | _ ↦ none
]

-- `raw.get(k)` of a text
abbrev text_at : String → Fields → Option (Option String)
text_at k raw = elim (lookup_field k raw) [
  | none ↦ some none
  | some null ↦ some none
  | some (str s) ↦ some (some s)
  | _ ↦ none
]

-- The same, where the empty text is read like `None`.
abbrev text_if : String → Fields → Option (Option String)
text_if k raw = elim (lookup_field k raw) [
  | none ↦ some none
  | some null ↦ some none
  | some (str s) ↦ some (if s == "" then none else some s)
  | _ ↦ none
]

-- `int(raw.get(k, "0x0"), 16)`
abbrev hex_number : String → Fields → Option ℕ
hex_number k raw = then_do (text_or k "0x0" raw) (λ s. natural (parse_hex (chars s)))

abbrev is_create : String → Bool
is_create call_type = (call_type == "CREATE") || (call_type == "CREATE2")

unfoldable pub frame_of : Fields → Option CallFrame
unfolding lookup_field upper lower chars parse_hex
frame_of raw = then_do (text_or "type" "CALL" raw) (λ type. then_do (text_if "from" raw) (λ from.
    then_do (text_if "to" raw) (λ to. then_do (hex_number "value" raw) (λ value.
      then_do (hex_number "gas" raw) (λ gas. then_do (text_or "input" "0x" raw) (λ input.
        then_do (text_or "output" "0x" raw) (λ output. then_do (text_at "error" raw) (λ error.
          let created = is_create (upper type) in
          some (record {
            type = upper type;
            from_addr = lower (Option.get_or from "");
            to_addr = if created then none else Option.map lower to;
            value = value;
            gas = gas;
            input = input;
            output = output;
            error = error;
            created_address = if created then Option.map lower to else none;
          })))))))))

abbrev call_of : Option CallFrame → Found InternalCalls → Found InternalCall
call_of f raised = raised
call_of (some f) (found calls) = found (internal_call f calls)
call_of f calls = raised

-- The children that are there: those that are too deep are left out.
abbrev with_child : Found InternalCall → Found InternalCalls → Found InternalCalls
with_child raised calls = raised
with_child absent calls = calls
with_child (found c) (found calls) = found (Types.cons c calls)
with_child (found c) calls = raised

-- `calls_at` walks the keys of a trace to its calls. A trace with more than 64 calls around it is `None`.
unfoldable mutual
  unfolding frame_of

  pub parse_call : ℕ → Value → Found InternalCall
  parse_call depth (dict raw) = elim (ltb 64 depth) [
    | true ↦ absent
    | false ↦ call_of (frame_of raw) (calls_at (depth + 1) raw)
  ]
  parse_call depth raw = elim (ltb 64 depth) [ true ↦ absent | false ↦ raised ]

  pub calls_at : ℕ → Fields → Found InternalCalls
  calls_at depth end = found Types.nil
  calls_at depth (field k v fs) = elim ("calls" == k) [
    | true ↦ listed_calls depth v
    | false ↦ calls_at depth fs
  ]

  pub listed_calls : ℕ → Value → Found InternalCalls
  listed_calls depth (list cs) = parse_calls depth cs
  listed_calls depth v = raised

  pub parse_calls : ℕ → Values → Found InternalCalls
  parse_calls depth nil = found Types.nil
  parse_calls depth (cons c cs) = with_child (parse_call depth c) (parse_calls depth cs)

abbrev parsed : Option Value → Found InternalCall
parsed none = absent
parsed (some null) = absent
parsed (some raw) = parse_call 0 raw

module _ (make_request : String → Option Value) where
  -- An exception of the request is no trace.
  unfoldable pub trace_transaction : String → Found InternalCall
  unfolding parse_call at_key
  trace_transaction tx_hash = elim (make_request tx_hash) [
    | none ↦ absent
    | some result ↦ parsed (at_key "result" result)
  ]

  unfoldable pub trace_block : List String → Found InternalCalls
  unfolding trace_transaction
  trace_block [] = found Types.nil
  trace_block (tx_hash ∷ hashes) = with_child (trace_transaction tx_hash) (trace_block hashes)
