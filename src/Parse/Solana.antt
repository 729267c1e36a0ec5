-- ===== src/Parse/Solana.antt =====
-- core/parser/sol_native.py, spl_transfer.py and spl_ops.py: the instructions of the system program and
-- the token programs. The base58 decoder is a parameter; `none` is its exception.
pub mod Parsers
pub mod Laws
mod Tests
use chain_indexer.Base.{
  ℕ, zero, suc, String, ◌≡◌, Bool, true, false, not, ◌&&◌, ◌||◌, Option, none, some, List, [], ◌∷◌,
  ◌++◌, length, get_elem?, ltb, leb, ◌==◌, nat_comparable, string_comparable, if◌then◌else◌,
}
use mathlib.Core.Option
use chain_indexer.Base.Text.{decimal}
use chain_indexer.Chain.Types.{
  SolanaBlock, SolanaTransaction, SolanaInstruction, SolanaTokenBalance,
}
use chain_indexer.Config.Snapshot.{MatchKind, native_transfer, token_transfer, call}
use chain_indexer.Parse.Value.{str, Fields, end, field}
use chain_indexer.Parse.Bytes.{u64_at}
use chain_indexer.Parse.Event.{Event}

abbrev pub system_program_id : String
system_program_id = "11111111111111111111111111111111"

abbrev pub spl_token_program_id : String
spl_token_program_id = "TokenkegQfeZyiNwAJbNbGKPFXCWuBvf9Ss623VQ5DA"

abbrev spl_token_2022_program_id : String
spl_token_2022_program_id = "TokenzQdBNbLqP5VEhdkAS6EPFLC1PHnBqCXEpPxuEb"

abbrev pub is_token_program : String → Bool
is_token_program p = (p == spl_token_program_id) || (p == spl_token_2022_program_id)

-- `block.block_time or 0`
abbrev pub time_of : SolanaBlock → ℕ
time_of block = Option.get_or block.block_time 0

unfoldable pub event_of :
    String
    → SolanaBlock
    → SolanaTransaction
    → MatchKind
    → Option String
    → Option String
    → Fields
    → Event
event_of chain_id block tx kind contract name args = record {
  chain_id = chain_id;
  block_number = block.slot;
  block_hash = block.block_hash;
  block_timestamp = time_of block;
  tx_hash = tx.signature;
  tx_index = none;
  log_index = none;
  kind = kind;
  contract = contract;
  name = name;
  args = args;
  raw = field "signature" (str tx.signature) end;
}

-- The loops of the three parsers over the transactions and their instructions.
module _ (event_for : SolanaTransaction → SolanaInstruction → Option Event) where
  unfoldable pub events_of_instructions : SolanaTransaction → List SolanaInstruction → List Event
  events_of_instructions tx [] = []
  events_of_instructions tx (ix ∷ ixs) = elim (event_for tx ix) [
    | none ↦ events_of_instructions tx ixs
    | some e ↦ e ∷ events_of_instructions tx ixs
  ]

  unfoldable pub events_of_transactions : List SolanaTransaction → List Event
  unfolding events_of_instructions
  events_of_transactions [] = []
  events_of_transactions (tx ∷ txs) =
      if not tx.success
      then events_of_transactions txs
      else events_of_instructions tx tx.instructions ++ events_of_transactions txs

-- The mint of the first token balance, after the transaction, of the account.
unfoldable pub resolve_mint : String → SolanaTransaction → List SolanaTokenBalance → Option String
resolve_mint account tx [] = none
resolve_mint account tx (tb ∷ tbs) = elim (get_elem? tx.account_keys tb.account_index) [
  | none ↦ resolve_mint account tx tbs
  | some key ↦ if key == account then some tb.mint else resolve_mint account tx tbs
]

pub record SplTransfer : Type 0 where
  pub source : String
  pub dest : String
  pub amount : ℕ
  pub mint : String
  pub fee : Option ℕ

-- The accounts of `Transfer`, whose mint is looked up, and of `TransferChecked`, which names it.
abbrev transfer_accounts : SolanaTransaction → ℕ → List String → Option SplTransfer
transfer_accounts tx amount (source ∷ dest ∷ a ∷ rest) =
    Option.map
      (λ mint. record { source = source; dest = dest; amount = amount; mint = mint; fee = none })
      (resolve_mint source tx tx.post_token_balances)
transfer_accounts tx amount accounts = none

abbrev checked_accounts : ℕ → Option ℕ → List String → Option SplTransfer
checked_accounts amount fee (source ∷ mint ∷ dest ∷ a ∷ rest) =
    some (record { source = source; dest = dest; amount = amount; mint = mint; fee = fee })
checked_accounts amount fee accounts = none

-- `_decode` of SplTransferParser, on the decoded data.
unfoldable pub decode_spl_transfer :
    SolanaInstruction → SolanaTransaction → List ℕ → Option SplTransfer
unfolding u64_at
decode_spl_transfer ix tx [] = none
decode_spl_transfer ix tx (disc ∷ rest) =
    let bs = disc ∷ rest in
    if (disc == 3) && leb 9 (length bs)
    then transfer_accounts tx (u64_at 1 bs) ix.accounts
    else if (disc == 12) && leb 9 (length bs)
    then checked_accounts (u64_at 1 bs) none ix.accounts
    else if (disc == 26) && leb 19 (length bs)
    then if not (Option.get_or (get_elem? bs 1) 0 == 1)
      then none
      else checked_accounts (u64_at 2 bs) (some (u64_at 11 bs)) ix.accounts
    else none

-- `args["fee"]` is there for a transfer with a fee.
abbrev pub fee_field : Option ℕ → Fields
fee_field none = end
fee_field (some fee) = field "fee" (str (decimal fee)) end

pub record SplOp : Type 0 where
  pub name : String
  pub mint : String
  pub args : Fields

abbrev approve_accounts : SolanaTransaction → ℕ → List String → Option SplOp
approve_accounts tx amount (source ∷ delegate ∷ a ∷ rest) =
    Option.map
      (λ mint. record {
        name = "approve";
        mint = mint;
        args =
            field "source" (str source)
              (field "delegate" (str delegate) (field "amount" (str (decimal amount)) end));
      })
      (resolve_mint source tx tx.post_token_balances)
approve_accounts tx amount accounts = none

abbrev revoke_accounts : SolanaTransaction → List String → Option SplOp
revoke_accounts tx (source ∷ a ∷ rest) =
    Option.map
      (λ mint. record { name = "revoke"; mint = mint; args = field "source" (str source) end })
      (resolve_mint source tx tx.post_token_balances)
revoke_accounts tx accounts = none

abbrev mint_to_accounts : ℕ → List String → Option SplOp
mint_to_accounts amount (mint ∷ dest ∷ a ∷ rest) = some (record {
  name = "mint_to";
  mint = mint;
  args =
      field "mint" (str mint) (field "dest" (str dest) (field "amount" (str (decimal amount)) end));
})
mint_to_accounts amount accounts = none

abbrev burn_accounts : ℕ → List String → Option SplOp
burn_accounts amount (source ∷ mint ∷ a ∷ rest) = some (record {
  name = "burn";
  mint = mint;
  args =
      field "source" (str source)
        (field "mint" (str mint) (field "amount" (str (decimal amount)) end));
})
burn_accounts amount accounts = none

-- `_decode` of SplOpsParser, on the decoded data.
unfoldable pub decode_spl_op : SolanaInstruction → SolanaTransaction → List ℕ → Option SplOp
unfolding u64_at
decode_spl_op ix tx [] = none
decode_spl_op ix tx (disc ∷ rest) =
    let bs = disc ∷ rest in
    if (disc == 4) && leb 9 (length bs)
    then approve_accounts tx (u64_at 1 bs) ix.accounts
    else if disc == 5
    then revoke_accounts tx ix.accounts
    else if (disc == 7) && leb 9 (length bs)
    then mint_to_accounts (u64_at 1 bs) ix.accounts
    else if (disc == 8) && leb 9 (length bs)
    then burn_accounts (u64_at 1 bs) ix.accounts
    else none
