-- ===== src/Parse/Abi/Registered/Tests.antt =====
-- The parser of events at a registry with one ABI, and a log of its event, one without topics, and one
-- whose topics are too few.
use chain_indexer.Base.{◌≡◌, refl, ap, String, List, [], ◌∷◌, ℕ}
use chain_indexer.Base.Text
use chain_indexer.Base.Text.{ascii}
use chain_indexer.Notify.Payload.{hex_of}
use chain_indexer.Chain.Types.{BlockHeader, Log}
use chain_indexer.Parse.Abi.Registered.{parse_registered}
use chain_indexer.Parse.Abi.Registered.Lookups.{IsSized, Agrees, parse_registered-parse_with}
use chain_indexer.Abi.Tests.{word_of, one_word, four_bytes, topic, one_abi, one_abi-IsCoherent}

abbrev header : BlockHeader
header = record { number = 4; hash = "0x4"; parent_hash = "0x3"; timestamp = 0 }

abbrev log_at : ℕ → List String → Log
log_at n topics = record {
  tx_hash = "0xt";
  log_index = n;
  address = "0xA";
  topics = topics;
  payload = "0x09";
  block_number = 4;
}

abbrev logs : List Log
logs = log_at 0 (topic ∷ "0xab" ∷ []) ∷ log_at 1 [] ∷ log_at 2 (topic ∷ []) ∷ []

log_at-IsSized : (n : ℕ) (others : List String) → IsSized (log_at n (topic ∷ others))
unfolding hex_of ascii Text.length
log_at-IsSized n others topic0 topics e = let same : topic0 ≡ topic = cc e in ap Text.length same

parse_registered-parse_with_example :
    Agrees one_word "eth" header word_of four_bytes
      (λ s. refl)
      one_abi
      logs
      (parse_registered one_word "eth" header word_of four_bytes logs one_abi)
parse_registered-parse_with_example =
    parse_registered-parse_with one_word "eth" header word_of four_bytes (λ s. refl) one_abi logs
      (
        log_at-IsSized 0 ("0xab" ∷ []),
        (λ topic0 topics e. absurd (cc e), (log_at-IsSized 2 [], tt)),
      )
      one_abi-IsCoherent
