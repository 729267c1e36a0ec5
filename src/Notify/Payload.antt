-- ===== src/Notify/Payload.antt =====
-- core/notifier/payload.py: the payload of a delivery. The clock and the random identifier are parameters.
pub mod Json
use chain_indexer.Base.{
  ℕ, ◌/◌, ◌%◌, ◌+◌, String, Bool, true, false, Option, none, some, List, [], ◌∷◌, ltb,
  if◌then◌else◌, ◌==◌, string_comparable,
}
use chain_indexer.Base.Int.{pos}
use chain_indexer.Base.Text.{ascii}
use chain_indexer.Config.Snapshot.{
  MatchKind, native_transfer, token_transfer, event, call, SnapshotSubscription,
}
use chain_indexer.Parse.Value.{
  Value, null, bool, int, str, bytes, list, tuple, dict, Values, nil, cons, Fields, end, field,
}
use chain_indexer.Parse.Event.{Event}

abbrev pub hex_char : ℕ → ℕ
hex_char n = if ltb n 10 then 48 + n else 87 + n

-- `obj.hex()`
unfoldable pub hex_of : List ℕ → String
hex_of [] = ""
hex_of (b ∷ bs) =
    String.◌∷◌ (ascii (hex_char (b / 16))) (String.◌∷◌ (ascii (hex_char (b % 16))) (hex_of bs))

unfoldable mutual
  -- A value of any other type, which the source turns into text by `str`, is none of the model.
  pub safe : Value → Value
  safe (bytes bs) = str (String.◌∷◌ (ascii 48) (String.◌∷◌ (ascii 120) (hex_of bs)))
  safe (dict fs) = dict (safe_fields fs)
  safe (list vs) = list (safe_values vs)
  safe (tuple vs) = list (safe_values vs)
  safe v = v

  pub safe_values : Values → Values
  safe_values nil = nil
  safe_values (cons v vs) = cons (safe v) (safe_values vs)

  pub safe_fields : Fields → Fields
  safe_fields end = end
  safe_fields (field k v fs) = field k (safe v) (safe_fields fs)

abbrev kind_text : MatchKind → String
kind_text native_transfer = "native_transfer"
kind_text token_transfer = "token_transfer"
kind_text event = "event"
kind_text call = "call"

abbrev text_or_null : Option String → Value
text_or_null none = null
text_or_null (some s) = str s

abbrev number_or_null : Option ℕ → Value
number_or_null none = null
number_or_null (some n) = int (pos n)

unfoldable pub event_fields : Event → Fields
unfolding safe_fields
event_fields e = field "kind" (str (kind_text e.kind)) (
    field "name" (text_or_null e.name) (
      field "contract" (text_or_null e.contract) (
        field "block_number" (int (pos e.block_number)) (
          field "block_hash" (str e.block_hash) (
            field "block_timestamp" (int (pos e.block_timestamp)) (
              field "tx_hash" (str e.tx_hash) (
                field "tx_index" (number_or_null e.tx_index) (
                  field "log_index" (number_or_null e.log_index)
                    (field "args" (dict (safe_fields e.args)) end)))))))))

-- `if subscription.business_name` is false for the empty text too.
abbrev business_field : Option String → Fields → Fields
business_field none rest = rest
business_field (some name) rest = if name == "" then rest else field "business_name" (str name) rest

unfoldable pub build_payload : ℕ → String → Event → SnapshotSubscription → Bool → Fields
unfolding event_fields
build_payload now delivery_id e sub replay = field "subscription_id" (str sub.id) (
    field "subscription_name" (str sub.name) (
      business_field sub.business_name (
        field "chain_id" (str e.chain_id) (
          field "event" (dict (event_fields e)) (
            field "delivered_at" (int (pos now)) (
              field "delivery_id" (str delivery_id)
                (if replay then field "replay" (bool true) end else end)))))))
