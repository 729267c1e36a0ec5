-- ===== src/Parse/Solana/Tests.antt =====
-- The Solana parsers at a concrete instruction and a decoder of one text.
use chain_indexer.Base.{ℕ, String, ◌≡◌, ◌⊎◌, refl, true, Option, none, some, List, [], ◌∷◌, arith}
use chain_indexer.Chain.Types.{SolanaBlock, SolanaTransaction, SolanaInstruction}
use chain_indexer.Parse.Bytes.Word.{bytes_of}
use chain_indexer.Parse.Solana.{spl_token_program_id, system_program_id}
use chain_indexer.Parse.Solana.Parsers.{decode_transfer, spl_transfer_event, spl_op_event}
use chain_indexer.Parse.Solana.Laws.{decode_transfer-bytes_of, events_disjoint}

abbrev decoder : List ℕ → String → Option (List ℕ)
decoder bs s = some bs

abbrev instruction : String → SolanaInstruction
instruction program = record {
  program_id = program;
  accounts = "a" ∷ "m" ∷ "b" ∷ "o" ∷ [];
  data_b58 = "x";
  stack_depth = 1;
}

abbrev tx : SolanaTransaction
tx = record {
  signature = "s";
  slot = 3;
  success = true;
  fee = 0;
  account_keys = [];
  pre_balances = [];
  post_balances = [];
  pre_token_balances = [];
  post_token_balances = [];
  log_messages = [];
  instructions = [];
}

abbrev block : SolanaBlock
block = record { slot = 3; block_hash = "h"; parent_slot = 2; block_time = none; transactions = [] }

events_disjoint_example :
    (spl_transfer_event
        (decoder (12 ∷ bytes_of 8 9))
        "sol"
        block
        tx
        (instruction spl_token_program_id)
      ≡ none)
    ⊎ (spl_op_event (decoder (12 ∷ bytes_of 8 9)) "sol" block tx (instruction spl_token_program_id)
        ≡ none)
events_disjoint_example =
    events_disjoint (decoder (12 ∷ bytes_of 8 9)) "sol" block tx (instruction spl_token_program_id)

decode_transfer-bytes_of_example :
    decode_transfer (decoder (2 ∷ 0 ∷ 0 ∷ 0 ∷ bytes_of 8 70000)) (instruction system_program_id)
    ≡ some 70000
decode_transfer-bytes_of_example =
    decode_transfer-bytes_of (decoder (2 ∷ 0 ∷ 0 ∷ 0 ∷ bytes_of 8 70000))
      (instruction system_program_id) 70000 (omega arith) refl
