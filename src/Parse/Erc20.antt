-- ===== src/Parse/Erc20.antt =====
-- core/parser/erc20.py: the Transfer logs of ERC-20 tokens.
pub mod Transfer
use chain_indexer.Base.{
  ℕ, ◌-◌, String, not, Option, none, some, List, [], ◌∷◌, ◌==◌, string_comparable, if◌then◌else◌,
  ltb,
}
use chain_indexer.Base.Int.{ℤ}
use chain_indexer.Base.Dict.{Dict, get, put}
use chain_indexer.Base.Text
use chain_indexer.Base.Text.{lower, take, drop, remove_prefix, ascii, chars}
use chain_indexer.Chain.Types.{Block, BlockHeader, Tx, Log}
use chain_indexer.Config.Snapshot.{token_transfer}
use chain_indexer.Parse.Value.{str, int, end, field}
use chain_indexer.Parse.Hex.{parse_hex, decimal_ℤ}
use chain_indexer.Base.Int.{pos}
use chain_indexer.Parse.Event.{Event}

abbrev pub transfer_topic0 : String
transfer_topic0 = "0xddf252ad1be2c89b69c2b068fc378daa952ba7f163c4a11628f55a4df523b3ef"

-- `"0x" + s`
abbrev pub prefixed : String → String
prefixed s = String.◌∷◌ (ascii 48) (String.◌∷◌ (ascii 120) s)

unfoldable pub addr_from_topic : String → String
unfolding lower remove_prefix Text.length drop
addr_from_topic topic =
    let body = lower (remove_prefix topic "0x") in
    if ltb (Text.length body) 40
    then prefixed body
    else prefixed (drop (Text.length body - 40) body)

-- `{tx.hash: tx.index for tx in block.txs}`
unfoldable pub tx_index_by_hash : List Tx → Dict String ℕ → Dict String ℕ
unfolding put
tx_index_by_hash [] m = m
tx_index_by_hash (tx ∷ txs) m = tx_index_by_hash txs (put tx.hash tx.index m)

unfoldable pub event_of : String → BlockHeader → Dict String ℕ → Log → String → String → ℤ → Event
unfolding addr_from_topic lower get
event_of chain_id h indexes entry topic1 topic2 value = record {
  chain_id = chain_id;
  block_number = h.number;
  block_hash = h.hash;
  block_timestamp = h.timestamp;
  tx_hash = entry.tx_hash;
  tx_index = get entry.tx_hash indexes;
  log_index = some entry.log_index;
  kind = token_transfer;
  contract = some (lower entry.address);
  name = some "Transfer";
  args =
      field "from" (str (addr_from_topic topic1))
        (field "to" (str (addr_from_topic topic2)) (field "value" (str (decimal_ℤ value)) end));
  raw = field "tx_hash" (str entry.tx_hash) (field "log_index" (int (pos entry.log_index)) end);
}

-- A log with a first topic and two more.
unfoldable pub decode_topics :
    String → BlockHeader → Dict String ℕ → Log → List String → Option Event
unfolding event_of parse_hex remove_prefix take Text.length chars
decode_topics chain_id h indexes entry (topic0 ∷ topic1 ∷ topic2 ∷ []) =
    let data_hex = remove_prefix entry.payload "0x" in
    if not (lower topic0 == transfer_topic0)
    then none
    else if ltb (Text.length data_hex) 64
    then none
    else elim (parse_hex (chars (take 64 data_hex))) [
      | none ↦ none
      | some value ↦ some (event_of chain_id h indexes entry topic1 topic2 value)
    ]
decode_topics chain_id h indexes entry topics = none

unfoldable pub try_decode : String → BlockHeader → Dict String ℕ → Log → Option Event
unfolding decode_topics
try_decode chain_id h indexes entry = decode_topics chain_id h indexes entry entry.topics

unfoldable pub parse_logs : String → BlockHeader → Dict String ℕ → List Log → List Event
unfolding try_decode
parse_logs chain_id h indexes [] = []
parse_logs chain_id h indexes (entry ∷ entries) = elim (try_decode chain_id h indexes entry) [
  | none ↦ parse_logs chain_id h indexes entries
  | some e ↦ e ∷ parse_logs chain_id h indexes entries
]

unfoldable pub parse : String → Block → List Event
unfolding parse_logs tx_index_by_hash
parse chain_id block = parse_logs chain_id block.header (tx_index_by_hash block.txs []) block.logs
