-- ===== src/Parse/Erc20/Transfer/Tests.antt =====
-- A transfer log of 1500 units, with more data behind the amount.
use chain_indexer.Base.{◌≡◌, refl, some, [], ◌∷◌, arith, leb, ◌&&◌}
use chain_indexer.Base.Int.{pos}
use chain_indexer.Base.Text.{lower, lower_char, ascii}
use chain_indexer.Chain.Types.{BlockHeader, Log}
use chain_indexer.Parse.Event.{Event}
use chain_indexer.Parse.Value.{int, end, field}
use chain_indexer.Parse.Hex.Word.{hex_word}
use chain_indexer.Parse.Erc20.{transfer_topic0, prefixed, event_of, try_decode}
use chain_indexer.Parse.Erc20.Transfer.{try_decode-hex_word, try_decode-evaluate}
use chain_indexer.Match.Filters.{evaluate}

abbrev header : BlockHeader
header = record { number = 9; hash = "0x9"; parent_hash = "0x8"; timestamp = 4 }

abbrev transfer_log : Log
transfer_log = record {
  tx_hash = "0xt";
  log_index = 1;
  address = "0xABC";
  topics = transfer_topic0 ∷ "0x01" ∷ "0x02" ∷ [];
  payload = prefixed (hex_word 64 1500 "ff");
  block_number = 9;
}

in_lower_case : lower transfer_topic0 ≡ transfer_topic0
unfolding lower lower_char ascii
in_lower_case = refl

try_decode-hex_word_example :
    try_decode "eth" header [] transfer_log
    ≡ some (event_of "eth" header [] transfer_log "0x01" "0x02" (pos 1500))
try_decode-hex_word_example =
    try_decode-hex_word "eth" header [] transfer_log transfer_topic0 "0x01" "0x02" "ff" 1500 refl
      in_lower_case refl (omega arith)

try_decode-evaluate_example :
    (e : Event) × (try_decode "eth" header [] transfer_log ≡ some e)
    × (evaluate (field "value_gte" (int (pos 1000)) (field "value_lte" (int (pos 2000)) end)) e.args
        ≡ some (leb 1000 1500 && leb 1500 2000))
try_decode-evaluate_example =
    try_decode-evaluate "eth" header [] transfer_log transfer_topic0 "0x01" "0x02" "ff" 1500 1000
      2000 refl in_lower_case refl (omega arith)
