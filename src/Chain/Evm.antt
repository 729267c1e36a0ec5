-- ===== src/Chain/Evm.antt =====
-- core/chains/evm.py: what an adapter makes of the answers of a node, and the heads that it polls. An answer is
-- a value as web3 gives it, with HexBytes as bytes; the requests are parameters. `none` is an exception. A
-- value that is neither a text, a number nor bytes where one is wanted, and a negative number, which nodes do
-- not give, are read as exceptions.
pub mod Traces
pub mod Heads
use mathlib.Core.Option
use chain_indexer.Base.{
  ℕ, zero, suc, ◌+◌, ◌-◌, String, Bool, true, false, ◌&&◌, Option, none, some, List, [], ◌∷◌, ltb,
  leb, ◌==◌, string_comparable, if◌then◌else◌,
}
use chain_indexer.Base.Int.{ℤ, pos, negsuc}
use chain_indexer.Base.Text.{starts_with, chars}
use chain_indexer.Chain.Types.{BlockHeader, Tx, Log, Block}
use chain_indexer.Parse.Hex.{parse_hex, decimal_ℤ}
use chain_indexer.Parse.Value.{
  Value, null, bool, int, str, bytes, list, tuple, dict, Values, nil, cons, Fields, end, field,
  lookup_field, parse_int, to_int,
}
use chain_indexer.Abi.Signature.{prefixed_hex}
use chain_indexer.Notify.Payload.{hex_of}

-- `_hexify`, whether `hex()` has the prefix itself or not.
unfoldable pub hexify : Value → Option String
unfolding hex_of
hexify (str s) = some s
hexify (bytes bs) = some (prefixed_hex bs)
hexify (int n) = some (decimal_ℤ n)
hexify v = none

abbrev pub natural : Option ℤ → Option ℕ
natural (some (pos n)) = some n
natural z = none

unfoldable pub intify : Value → Option ℕ
unfolding starts_with chars parse_hex parse_int
intify (int n) = natural (some n)
intify (str s) = natural (if starts_with s "0x" then parse_hex (chars s) else parse_int (chars s))
intify v = none

-- `raw[k]`
unfoldable pub at_key : String → Value → Option Value
unfolding lookup_field
at_key k (dict fs) = lookup_field k fs
at_key k v = none

abbrev pub then_do {ℓ κ} : {A : Type ℓ} {B : Type κ} → Option A → (A → Option B) → Option B
then_do none f = none
then_do (some a) f = f a

-- `int(raw[k])`, `_hexify(raw[k])` and `str(raw[k])` of a text
abbrev pub number_at : String → Value → Option ℕ
number_at k raw = then_do (at_key k raw) (λ v. natural (to_int v))

abbrev pub hex_at : String → Value → Option String
hex_at k raw = then_do (at_key k raw) hexify

abbrev text_value : Value → Option String
text_value (str s) = some s
text_value v = none

abbrev pub string_at : String → Value → Option String
string_at k raw = then_do (at_key k raw) text_value

unfoldable pub header_of : Value → Option BlockHeader
unfolding at_key hexify to_int
header_of raw = then_do (number_at "number" raw) (λ number. then_do (hex_at "hash" raw) (λ hash.
    then_do (hex_at "parentHash" raw) (λ parent_hash.
      then_do (number_at "timestamp" raw) (λ timestamp. some (record {
        number = number;
        hash = hash;
        parent_hash = parent_hash;
        timestamp = timestamp;
      })))))

-- `int(t.get(k, 0) or 0)`
abbrev or_zero : Option Value → Option ℕ
or_zero none = some 0
or_zero (some null) = some 0
or_zero (some (str s)) = if s == "" then some 0 else natural (to_int (str s))
or_zero (some v) = natural (to_int v)

-- `str(t["to"]) if t.get("to") else None`
abbrev to_of : Option Value → Option (Option String)
to_of none = some none
to_of (some null) = some none
to_of (some (str s)) = some (if s == "" then none else some s)
to_of (some v) = none

abbrev input_of : Option Value → Option String
input_of none = some "0x"
input_of (some v) = hexify v

unfoldable pub tx_of : Value → Option Tx
unfolding at_key hexify to_int
tx_of t = then_do (hex_at "hash" t) (λ hash.
    then_do (or_zero (at_key "transactionIndex" t)) (λ index.
      then_do (string_at "from" t) (λ from_addr. then_do (to_of (at_key "to" t)) (λ to_addr.
        then_do (or_zero (at_key "value" t)) (λ value.
          then_do (input_of (at_key "input" t)) (λ input. some (record {
            hash = hash;
            index = index;
            from_addr = from_addr;
            to_addr = to_addr;
            value = value;
            input = input;
            status = 1;
          })))))))

abbrev in_front {ℓ} : {A : Type ℓ} → Option A → Option (List A) → Option (List A)
in_front (some x) (some xs) = some (x ∷ xs)
in_front x xs = none

unfoldable pub txs_of : Values → Option (List Tx)
unfolding tx_of
txs_of nil = some []
txs_of (cons t ts) = in_front (tx_of t) (txs_of ts)

abbrev transactions_of : Option Value → Option (List Tx)
transactions_of none = some []
transactions_of (some (list ts)) = txs_of ts
transactions_of (some v) = none

-- `fetch_block` of the answer
unfoldable pub fetch_block : Value → Option Block
unfolding header_of txs_of at_key
fetch_block raw = then_do (header_of raw) (λ header.
    then_do (transactions_of (at_key "transactions" raw))
      (λ txs. some (record { header = header; txs = txs; logs = [] })))

unfoldable pub topics_of : Values → Option (List String)
unfolding hexify
topics_of nil = some []
topics_of (cons t ts) = in_front (hexify t) (topics_of ts)

abbrev topic_list : Value → Option (List String)
topic_list (list ts) = topics_of ts
topic_list v = none

unfoldable pub log_of : Value → Option Log
unfolding at_key hexify to_int topics_of
log_of lg = then_do (hex_at "transactionHash" lg) (λ tx_hash.
    then_do (number_at "logIndex" lg) (λ log_index. then_do (string_at "address" lg) (λ address.
      then_do (then_do (at_key "topics" lg) topic_list) (λ topics.
        then_do (hex_at "data" lg) (λ payload. then_do (number_at "blockNumber" lg) (λ block_number.
          some (record {
            tx_hash = tx_hash;
            log_index = log_index;
            address = address;
            topics = topics;
            payload = payload;
            block_number = block_number;
          })))))))

-- `fetch_logs` of the answer
unfoldable pub logs_of : Values → Option (List Log)
unfolding log_of
logs_of nil = some []
logs_of (cons lg lgs) = in_front (log_of lg) (logs_of lgs)

abbrev strings : List String → Values
strings [] = nil
strings (s ∷ ss) = cons (str s) (strings ss)

abbrev string_lists : List (List String) → Values
string_lists [] = nil
string_lists (ss ∷ sss) = cons (list (strings ss)) (string_lists sss)

abbrev topics_param : Option (List (List String)) → Fields
topics_param none = end
topics_param (some []) = end
topics_param (some (ts ∷ tss)) = field "topics" (list (string_lists (ts ∷ tss))) end

-- The parameters of `fetch_logs`: an empty list is left out like none.
unfoldable pub log_params : ℕ → ℕ → Option (List String) → Option (List (List String)) → Fields
log_params from_block to_block addresses topics = field "fromBlock" (int (pos from_block)) (
    field "toBlock" (int (pos to_block)) (elim addresses [
      | some (a ∷ as') ↦ field "address" (list (strings (a ∷ as'))) (topics_param topics)
      | _ ↦ topics_param topics
    ]))
