-- ===== src/Parse/Solana/Parsers.antt =====
-- core/parser/sol_native.py, spl_transfer.py and spl_ops.py: the parsers over the blocks.
use chain_indexer.Base.{
  ℕ, String, not, Option, none, some, List, [], ◌∷◌, length, ◌==◌, nat_comparable,
  string_comparable, if◌then◌else◌,
}
use chain_indexer.Base.Text.{decimal}
use chain_indexer.Chain.Types.{SolanaBlock, SolanaTransaction, SolanaInstruction}
use chain_indexer.Config.Snapshot.{native_transfer, token_transfer, call}
use chain_indexer.Parse.Value.{bytes_beq, str, Fields, end, field}
use chain_indexer.Parse.Bytes.{take, u64_at}
use chain_indexer.Parse.Event.{Event}
use chain_indexer.Parse.Solana.{
  system_program_id, is_token_program, event_of, events_of_transactions, decode_spl_transfer,
  decode_spl_op, fee_field,
}

module _ (b58decode : String → Option (List ℕ)) where
  abbrev lamports_of : List ℕ → Option ℕ
  lamports_of bs =
      if not (length bs == 12)
      then none
      else if not (bytes_beq (take 4 bs) (2 ∷ 0 ∷ 0 ∷ 0 ∷ []))
      then none
      else some (u64_at 4 bs)

  -- `_decode_transfer` of SolNativeTransferParser
  unfoldable pub decode_transfer : SolanaInstruction → Option ℕ
  decode_transfer ix = elim (b58decode ix.data_b58) [ none ↦ none | some bs ↦ lamports_of bs ]

  abbrev transfer_args : List String → ℕ → Option Fields
  transfer_args (source ∷ dest ∷ rest) lamports = some (
      field "from" (str source)
        (field "to" (str dest) (field "value" (str (decimal lamports)) end)))
  transfer_args accounts lamports = none

  unfoldable pub sol_event :
      String → SolanaBlock → SolanaTransaction → SolanaInstruction → Option Event
  unfolding decode_transfer event_of
  sol_event chain_id block tx ix =
      if not (ix.program_id == system_program_id)
      then none
      else if not (ix.stack_depth == 1)
      then none
      else elim (decode_transfer ix) [
        | none ↦ none
        | some lamports ↦ elim (transfer_args ix.accounts lamports) [
          | none ↦ none
          | some args ↦ some (event_of chain_id block tx native_transfer none none args)
        ]
      ]

  unfoldable pub parse_sol : String → SolanaBlock → List Event
  unfolding sol_event events_of_transactions
  parse_sol chain_id block = events_of_transactions (sol_event chain_id block) block.transactions

  unfoldable pub spl_transfer_event :
      String → SolanaBlock → SolanaTransaction → SolanaInstruction → Option Event
  unfolding decode_spl_transfer event_of
  spl_transfer_event chain_id block tx ix =
      if not (is_token_program ix.program_id)
      then none
      else if not (ix.stack_depth == 1)
      then none
      else elim (b58decode ix.data_b58) [
        | none ↦ none
        | some bs ↦ elim (decode_spl_transfer ix tx bs) [
          | none ↦ none
          | some t ↦ some (
              event_of chain_id block tx token_transfer (some t.mint) (some "Transfer") (
                field "from" (str t.source) (
                  field "to" (str t.dest) (
                    field "value" (str (decimal t.amount))
                      (field "mint" (str t.mint) (fee_field t.fee))))))
        ]
      ]

  unfoldable pub parse_spl_transfers : String → SolanaBlock → List Event
  unfolding spl_transfer_event events_of_transactions
  parse_spl_transfers chain_id block =
      events_of_transactions (spl_transfer_event chain_id block) block.transactions

  unfoldable pub spl_op_event :
      String → SolanaBlock → SolanaTransaction → SolanaInstruction → Option Event
  unfolding decode_spl_op event_of
  spl_op_event chain_id block tx ix =
      if not (is_token_program ix.program_id)
      then none
      else if not (ix.stack_depth == 1)
      then none
      else elim (b58decode ix.data_b58) [
        | none ↦ none
        | some bs ↦ elim (decode_spl_op ix tx bs) [
          | none ↦ none
          | some op ↦ some (event_of chain_id block tx call (some op.mint) (some op.name) op.args)
        ]
      ]

  unfoldable pub parse_spl_ops : String → SolanaBlock → List Event
  unfolding spl_op_event events_of_transactions
  parse_spl_ops chain_id block =
      events_of_transactions (spl_op_event chain_id block) block.transactions
