-- ===== src/Parse/Anchor.antt =====
-- core/parser/anchor_event.py and anchor_call.py: Anchor programs, whose events stand in the log messages
-- of a transaction. The regular expression of an invocation, the decoders of base64, base58 and Borsh and
-- the lookups of the registry are parameters; `none` is no match, or the exception that is caught.
use chain_indexer.Base.{
  ℕ, String, not, ◌&&◌, Option, none, some, List, [], ◌∷◌, ◌++◌, length, ltb, ◌==◌, nat_comparable,
  if◌then◌else◌,
}
use chain_indexer.Base.Text
use chain_indexer.Base.Text.{starts_with, ends_with}
use chain_indexer.Chain.Types.{SolanaBlock, SolanaTransaction, SolanaInstruction}
use chain_indexer.Config.Snapshot.{event, call}
use chain_indexer.Notify.Payload.{hex_of}
use chain_indexer.Parse.Value.{str, Fields, end, field}
use chain_indexer.Parse.Bytes.{take, drop}
use chain_indexer.Parse.Event.{Event}
use chain_indexer.Parse.Solana.{event_of, events_of_transactions, time_of}

abbrev program_data_prefix : String
program_data_prefix = "Program data: "

-- The event of data that does not decode.
abbrev undecoded : String → SolanaBlock → SolanaTransaction → String → String → String → Event
undecoded chain_id block tx program_id b64 disc_hex = record {
  chain_id = chain_id;
  block_number = block.slot;
  block_hash = block.block_hash;
  block_timestamp = time_of block;
  tx_hash = tx.signature;
  tx_index = none;
  log_index = none;
  kind = event;
  contract = some program_id;
  name = none;
  args = end;
  raw =
      field "program_data" (str b64)
        (field "program_id" (str program_id) (field "discriminator" (str disc_hex) end));
}

module _ (invoked : String → Option String) (b64decode : String → Option (List ℕ))
    (lookup_idl_event_by_discriminator : String
      → String
      → Option (String × (List ℕ → Option Fields)))
    (chain_id : String) (block : SolanaBlock) where
  abbrev event_of_bytes : SolanaTransaction → String → String → List ℕ → Option Event
  event_of_bytes tx b64 program_id raw =
      if ltb (length raw) 8
      then none
      else elim (lookup_idl_event_by_discriminator program_id (hex_of (take 8 raw))) [
        | none ↦ none
        | some (name, decoder) ↦ elim (decoder (drop 8 raw)) [
          | none ↦ some (undecoded chain_id block tx program_id b64 (hex_of (take 8 raw)))
          | some args ↦ some (event_of chain_id block tx event (some program_id) (some name) args)
        ]
      ]

  unfoldable pub try_decode_event : SolanaTransaction → String → String → Option Event
  unfolding take drop hex_of event_of
  try_decode_event tx b64 program_id = elim (b64decode b64) [
    | none ↦ none
    | some raw ↦ event_of_bytes tx b64 program_id raw
  ]

  abbrev pop : List String → List String
  pop [] = []
  pop (p ∷ ps) = ps

  abbrev data_event : SolanaTransaction → String → List String → List Event
  data_event tx line [] = []
  data_event tx line (program_id ∷ stack) =
      elim (try_decode_event tx (Text.drop (Text.length program_data_prefix) line) program_id) [
        | none ↦ []
        | some e ↦ e ∷ []
      ]

  -- The loop over the log messages, with the stack of the programs that run, the innermost first.
  unfoldable pub extract : SolanaTransaction → List String → List String → List Event
  unfolding try_decode_event starts_with ends_with Text.drop Text.length
  extract tx stack [] = []
  extract tx stack (line ∷ lines) =
      let ended = extract tx (pop stack) lines in
      let same = extract tx stack lines in
      elim (invoked line) [
        | some program_id ↦ extract tx (program_id ∷ stack) lines
        | none ↦
            if starts_with line "Program " && ends_with line " success"
            then ended
            else if starts_with line program_data_prefix
            then data_event tx line stack ++ same
            else same
      ]

  unfoldable pub parse_transactions : List SolanaTransaction → List Event
  unfolding extract
  parse_transactions [] = []
  parse_transactions (tx ∷ txs) =
      if not tx.success
      then parse_transactions txs
      else extract tx [] tx.log_messages ++ parse_transactions txs

module _ (b58decode : String → Option (List ℕ))
    (lookup_idl_call_by_discriminator : String
      → String
      → Option (String × (List ℕ → Option Fields)))
    (chain_id : String) (block : SolanaBlock) where
  abbrev call_of_bytes : SolanaTransaction → SolanaInstruction → List ℕ → Option Event
  call_of_bytes tx ix bs =
      if ltb (length bs) 8
      then none
      else elim (lookup_idl_call_by_discriminator ix.program_id (hex_of (take 8 bs))) [
        | none ↦ none
        | some (name, decoder) ↦ elim (decoder (drop 8 bs)) [
          | none ↦ none
          | some args ↦ some (event_of chain_id block tx call (some ix.program_id) (some name) args)
        ]
      ]

  unfoldable pub call_for : SolanaTransaction → SolanaInstruction → Option Event
  unfolding take drop hex_of event_of
  call_for tx ix =
      if not (ix.stack_depth == 1)
      then none
      else elim (b58decode ix.data_b58) [ none ↦ none | some bs ↦ call_of_bytes tx ix bs ]

  unfoldable pub parse_anchor_calls : List Event
  unfolding call_for events_of_transactions
  parse_anchor_calls = events_of_transactions call_for block.transactions
