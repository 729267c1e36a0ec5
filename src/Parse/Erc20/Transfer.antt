-- ===== src/Parse/Erc20/Transfer.antt =====
-- core/parser/erc20.py: how the transfer logs of a token are read.
mod Tests
use chain_indexer.Base.{
  ℕ, zero, suc, ◌+◌, ◌-◌, ◌/◌, ◌%◌, ◌^◌, ◌≤◌, ◌<◌, String, ◌≡◌, refl, sym, ap, ◌∙◌, Bool, true,
  false, not, Option, none, some, List, [], ◌∷◌, arith, ltb, leb, ◌&&◌, ◌==◌, string_comparable,
  if◌then◌else◌, ==_refl,
}
use chain_indexer.Base.Int.{pos}
use chain_indexer.Base.Dict.{Dict}
use chain_indexer.Base.Text
use chain_indexer.Base.Text.{lower, remove_prefix, starts_with, drop, take, chars, ascii, decimal}
use chain_indexer.Chain.Types.{BlockHeader, Log}
use chain_indexer.Parse.Event.{Event}
use chain_indexer.Parse.Value.{str, int, end, field, lookup_field}
use chain_indexer.Match.Filters.{evaluate}
use chain_indexer.Match.Filters.Laws.{amount_range}
use chain_indexer.Parse.Hex.{parse_hex}
use chain_indexer.Parse.Hex.Word.{hex_word, parse_hex-hex_word}
use chain_indexer.Parse.Erc20.{transfer_topic0, prefixed, event_of, decode_topics, try_decode}

remove_prefix-prefixed : (s : String) → remove_prefix (prefixed s) "0x" ≡ s
unfolding remove_prefix starts_with drop Text.length ascii
remove_prefix-prefixed s = refl

take-hex_word :
    (k j n : ℕ) (rest : String) → take (k + j) (hex_word k n rest) ≡ hex_word k n (take j rest)
unfolding hex_word take
take-hex_word zero j n rest = let e : zero + j ≡ j = omega arith in rw e refl
take-hex_word (suc k) j n rest =
    let e : suc k + j ≡ k + suc j = omega arith in rw e (take-hex_word k (suc j) (n / 16) _)

length-hex_word : (k n : ℕ) (rest : String) → Text.length (hex_word k n rest) ≡ k + Text.length rest
unfolding hex_word Text.length
length-hex_word zero n rest = omega arith
length-hex_word (suc k) n rest = length-hex_word k (n / 16) _ ∙ omega arith

-- A log with the topic of the transfer and two more, whose data starts with the 64 hexadecimal digits of
-- an amount below 2 ^ 256, is read as the transfer of that amount, whatever follows in the data.
pub try_decode-hex_word :
    (chain_id : String) (h : BlockHeader) (indexes : Dict String ℕ) (lg : Log)
    (topic0 topic1 topic2 rest : String) (amount : ℕ)
    → lg.topics ≡ topic0 ∷ topic1 ∷ topic2 ∷ []
    → lower topic0 ≡ transfer_topic0
    → lg.payload ≡ prefixed (hex_word 64 amount rest)
    → amount < 2 ^ 256
    → try_decode chain_id h indexes lg
      ≡ some (event_of chain_id h indexes lg topic1 topic2 (pos amount))
unfolding try_decode
try_decode-hex_word chain_id h indexes lg topic0 topic1 topic2 rest amount t k p a =
    ap (decode_topics chain_id h indexes lg) t ∙ decoded
  where
    body : remove_prefix lg.payload "0x" ≡ hex_word 64 amount rest
    body = ap (λ s. remove_prefix s "0x") p ∙ remove_prefix-prefixed (hex_word 64 amount rest)

    long : ltb (Text.length (hex_word 64 amount rest)) 64 ≡ false
    long = rw (length-hex_word 64 amount rest) (ground arith)

    value : parse_hex (chars (take 64 (hex_word 64 amount rest))) ≡ some (pos amount)
    value =
        ap (λ s. parse_hex (chars s)) (take-hex_word 64 0 amount rest)
        ∙ parse_hex-hex_word 63 amount a

    decoded :
        decode_topics chain_id h indexes lg (topic0 ∷ topic1 ∷ topic2 ∷ [])
        ≡ some (event_of chain_id h indexes lg topic1 topic2 (pos amount))
    decoded = unfold decode_topics in rw (k, body, long, value) refl

-- The event of such a log passes filters on `value_gte` and `value_lte` exactly if the amount in the data
-- of the log lies between the two bounds.
pub try_decode-evaluate :
    (chain_id : String) (h : BlockHeader) (indexes : Dict String ℕ) (lg : Log)
    (topic0 topic1 topic2 rest : String) (amount lo hi : ℕ)
    → lg.topics ≡ topic0 ∷ topic1 ∷ topic2 ∷ []
    → lower topic0 ≡ transfer_topic0
    → lg.payload ≡ prefixed (hex_word 64 amount rest)
    → amount < 2 ^ 256
    → (e : Event) × (try_decode chain_id h indexes lg ≡ some e)
      × (evaluate (field "value_gte" (int (pos lo)) (field "value_lte" (int (pos hi)) end)) e.args
          ≡ some (leb lo amount && leb amount hi))
try_decode-evaluate chain_id h indexes lg topic0 topic1 topic2 rest amount lo hi t k p a = (
  event_of chain_id h indexes lg topic1 topic2 (pos amount),
  try_decode-hex_word chain_id h indexes lg topic0 topic1 topic2 rest amount t k p a,
  amount_range amount lo hi _ found,
)
  where
    found :
        lookup_field "value" (event_of chain_id h indexes lg topic1 topic2 (pos amount)).args
        ≡ some (str (decimal amount))
    found = unfold event_of lookup_field in refl
