-- ===== src/Parse/Solana/Laws.antt =====
-- core/parser/sol_native.py, spl_transfer.py and spl_ops.py: what the decoders read.
use chain_indexer.Base.{
  ℕ, ◌^◌, ◌<◌, String, ◌≡◌, ◌⊎◌, refl, ap, Bool, true, false, not, ◌||◌, Option, none, some, List,
  [], ◌∷◌, leb, ◌==◌, nat_comparable, string_comparable, arith, if◌then◌else◌, Bool-cases,
  Option-cases, inl, inr,
}
use chain_indexer.Chain.Types.{SolanaBlock, SolanaTransaction, SolanaInstruction}
use chain_indexer.Parse.Bytes.{take, drop, u64_at}
use chain_indexer.Parse.Bytes.Word.{bytes_of, u64_at-bytes_of}
use chain_indexer.Parse.Event.{Event}
use chain_indexer.Parse.Solana.{decode_spl_transfer, decode_spl_op, is_token_program}
use chain_indexer.Parse.Solana.Parsers.{decode_transfer, spl_transfer_event, spl_op_event}

-- The discriminators of the two token parsers have no value in common.
decode_disjoint :
    (ix : SolanaInstruction) (tx : SolanaTransaction) (bs : List ℕ)
    → (decode_spl_transfer ix tx bs ≡ none) ⊎ (decode_spl_op ix tx bs ≡ none)
decode_disjoint ix tx [] = inl (unfold decode_spl_transfer in refl)
decode_disjoint ix tx (disc ∷ rest) = elim (Bool-cases (leb disc 2 || (disc == 3) || leb 9 disc)) [
  | inl b ↦ inr (unfold decode_spl_op in ground arith)
  | inr b ↦ inl (unfold decode_spl_transfer in ground arith)
]

guarded :
    (a b : Bool) {r : Option Event} → r ≡ none → (if a then none else if b then none else r) ≡ none
guarded true b e = refl
guarded false true e = refl
guarded false false e = e

module _ (b58decode : String → Option (List ℕ)) where
  -- No instruction gives an event both as a token transfer and as a token operation.
  pub events_disjoint :
      (chain_id : String) (block : SolanaBlock) (tx : SolanaTransaction) (ix : SolanaInstruction)
      → (spl_transfer_event b58decode chain_id block tx ix ≡ none)
        ⊎ (spl_op_event b58decode chain_id block tx ix ≡ none)
  unfolding spl_transfer_event spl_op_event
  events_disjoint chain_id block tx ix = elim (Option-cases (b58decode ix.data_b58)) [
    | inl e ↦ inl (
        rw (e, spl_transfer_event)
          (guarded (not (is_token_program ix.program_id)) (not (ix.stack_depth == 1)) refl))
    | inr (bs, e) ↦ elim (decode_disjoint ix tx bs) [
      | inl d ↦ inl (
          rw (e, spl_transfer_event)
            (guarded (not (is_token_program ix.program_id)) (not (ix.stack_depth == 1))
              (rw d refl)))
      | inr d ↦ inr (
          rw (e, spl_op_event)
            (guarded (not (is_token_program ix.program_id)) (not (ix.stack_depth == 1))
              (rw d refl)))
    ]
  ]

  -- The data of a system transfer, the discriminator 2 in four bytes and an amount below 2 ^ 64 in eight,
  -- low byte first, is read as that amount.
  pub decode_transfer-bytes_of :
      (ix : SolanaInstruction) (n : ℕ)
      → n < 2 ^ 64
      → b58decode ix.data_b58 ≡ some (2 ∷ 0 ∷ 0 ∷ 0 ∷ bytes_of 8 n)
      → decode_transfer b58decode ix ≡ some n
  unfolding decode_transfer u64_at take drop
  decode_transfer-bytes_of ix n h e = rw (e, decode_transfer) (ap some (u64_at-bytes_of n [] h))
