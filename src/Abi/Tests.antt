-- ===== src/Abi/Tests.antt =====
-- The theorems on ABIs at concrete entries, hashes and decoders.
mod Refreshed
use chain_indexer.Base.{
  ℕ, suc, ◌≡◌, refl, String, true, Option, none, some, List, [], ◌∷◌, ◌++◌, length, arith,
  nat_comparable, string_comparable, pair_comparable, Returns,
}
use chain_indexer.Base.Int.{pos}
use chain_indexer.Base.Text
use chain_indexer.Base.Text.{
  lower, ascii, code-ascii, chars, starts_with, ends_with, remove_prefix, decimal,
}
use chain_indexer.Base.Dict.{get}
use chain_indexer.Config.Snapshot.{SnapshotAbi}
use chain_indexer.Notify.Payload.{hex_of}
use chain_indexer.Parse.Value.{
  Value, null, bool, int, str, list, dict, nil, cons, Fields, end, field, lookup_field, to_int,
}
use chain_indexer.Abi.Signature.{
  text_of, inputs_of, canonical_type, canonical_function_signature, prefixed_hex,
}
use chain_indexer.Abi.Decoder.{
  decoded, indexed, not_indexed, count, from_hex, types_of, store_all, normalize_value, set_field,
  is_reference, topic_value, decode_topics, decode_event, decode_function_call, is_indexed,
}
use chain_indexer.Abi.Decoder.Laws.Names.{AllNamed, decode_event-AllNamed}
use chain_indexer.Abi.Decoder.Laws.Calls.{decode_function_call-encoded}
use chain_indexer.Abi.Borsh.{Layout, scalar, build_anchor_event_struct, decode_anchor_borsh}
use chain_indexer.Abi.Borsh.Laws.{depth, AtMost, build_anchor_event_struct-AtMost}
use chain_indexer.Abi.Borsh.Safe.{FieldsSafe, decode_anchor_borsh-FieldsSafe}
use chain_indexer.Abi.Registry.{AbiRegistry, create}
use chain_indexer.Abi.Registry.Lookup.{lookup_event_by_topic0}
use chain_indexer.Abi.Registry.Coherent.{IsCoherent, event_answer}
use chain_indexer.Abi.Registry.Coherent.Lookups.{IsAnswered, lookup_event_by_topic0-answer}

abbrev pub amount : Value
amount = dict (field "name" (str "amount") (field "type" (str "uint256") end))

abbrev pub sender : Value
sender =
    dict
      (field "name" (str "sender") (field "type" (str "uint8") (field "indexed" (bool true) end)))

abbrev transfer_fn : Value
transfer_fn = dict (
    field "type" (str "function")
      (field "name" (str "pay") (field "inputs" (list (cons amount nil)) end)))

abbrev pub paid_event : Value
paid_event = dict (
    field "type" (str "event")
      (field "name" (str "Paid") (field "inputs" (list (cons sender (cons amount nil))) end)))

-- A decoder of one word of one byte.
abbrev pub one_word : List String → List ℕ → Option (List Value)
one_word ts (b ∷ []) = some (int (pos b) ∷ [])
one_word ts raw = none

abbrev pub four_bytes : String → List ℕ
four_bytes s = 1 ∷ 2 ∷ 3 ∷ 4 ∷ []

abbrev pub word : List ℕ
word =
    0 ∷ 0 ∷ 0 ∷ 0 ∷ 0 ∷ 0 ∷ 0 ∷ 0 ∷ 0 ∷ 0 ∷ 0 ∷ 0 ∷ 0 ∷ 0 ∷ 0 ∷ 0 ∷ 0 ∷ 0 ∷ 0 ∷ 0 ∷ 0 ∷ 0 ∷ 0 ∷ 0
    ∷ 0 ∷ 0 ∷ 0 ∷ 0 ∷ 0 ∷ 0 ∷ 0 ∷ 171 ∷ []

abbrev pub word_of : String → List ℕ
word_of s = word

decode_function_call-encoded_example :
    decode_function_call one_word four_bytes transfer_fn
      (prefixed_hex (four_bytes "pay(uint256)" ++ 9 ∷ []))
    ≡ decoded (field "amount" (str "9") end)
unfolding canonical_function_signature text_of inputs_of canonical_type starts_with lookup_field
    types_of store_all normalize_value set_field ends_with to_int decimal ascii Text.digits_fuel
decode_function_call-encoded_example =
    decode_function_call-encoded one_word four_bytes transfer_fn "pay(uint256)" (cons amount nil)
      ("uint256" ∷ []) (int (pos 9) ∷ []) (9 ∷ []) (field "amount" (str "9") end) refl
      (refl, (omega arith, (omega arith, (omega arith, (omega arith, tt))))) (omega arith, tt) refl
      refl refl refl

decode_event-AllNamed_example :
    (length {A = String} ("0x01" ∷ "0xab" ∷ [])
      ≡ suc (count (indexed (cons sender (cons amount nil)))))
    × AllNamed
        (field "sender" (str "171") (field "amount" (str "9") end))
        (cons sender (cons amount nil))
unfolding inputs_of lookup_field decode_event indexed is_indexed not_indexed decode_topics
    canonical_type text_of topic_value is_reference starts_with ends_with from_hex remove_prefix
    chars normalize_value lower set_field types_of store_all to_int decimal ascii Text.hex_digit
    Text.length Text.drop Text.digits_fuel
decode_event-AllNamed_example =
    decode_event-AllNamed one_word paid_event (cons sender (cons amount nil)) ("0x01" ∷ "0xab" ∷ [])
      "0x09" (field "sender" (str "171") (field "amount" (str "9") end)) refl refl

abbrev idl_fields : Option Value
idl_fields = some (
    list (
      cons (dict (field "name" (str "ids") (field "type" (dict (field "vec" (str "u64") end)) end)))
        nil))

build_anchor_event_struct-AtMost_example :
    AtMost depth 9 (build_anchor_event_struct idl_fields null)
build_anchor_event_struct-AtMost_example = build_anchor_event_struct-AtMost idl_fields null

abbrev parsed_fields : Layout → List ℕ → Option Fields
parsed_fields layout bs =
    some (field "_io" null (field "amount" (int (pos 18446744073709551615)) end))

decode_anchor_borsh-FieldsSafe_example :
    Returns FieldsSafe (decode_anchor_borsh (λ bs. "key") parsed_fields (scalar "u64") (1 ∷ []))
decode_anchor_borsh-FieldsSafe_example =
    decode_anchor_borsh-FieldsSafe (λ bs. "key") parsed_fields (scalar "u64") (1 ∷ [])

abbrev pub topic : String
topic = prefixed_hex word

abbrev pub paid_abi : SnapshotAbi
paid_abi = record { id = "a1"; name = "paid"; kind = "evm"; body = list (cons paid_event nil) }

abbrev pub one_abi : AbiRegistry
one_abi = record create {
  abis = ("a1", paid_abi) ∷ [];
  hashes = ("a1", "Paid") ∷ [];
  topic0_index = (topic, ("a1", "Paid")) ∷ [];
}

pub one_abi-IsCoherent : IsCoherent word_of four_bytes one_abi
unfolding get
one_abi-IsCoherent = record {
  decoders_agree = λ id key d e. absurd (cc e);
  topics_agree = λ key hit e. absurd (cc e);
  selectors_agree = λ key hit e. absurd (cc e);
  anchors_agree = λ key hit e. absurd (cc e);
  calls_agree = λ key hit e. absurd (cc e);
}

lookup_event_by_topic0-answer_example :
    IsAnswered word_of four_bytes
      (λ s. refl)
      one_abi
      (lookup_event_by_topic0 word_of four_bytes topic one_abi)
      (event_answer word_of four_bytes one_abi
        (lower topic)
        (get (lower topic) one_abi.topic0_index))
unfolding hex_of ascii Text.length
lookup_event_by_topic0-answer_example =
    lookup_event_by_topic0-answer word_of four_bytes (λ s. refl) topic one_abi refl
      one_abi-IsCoherent
