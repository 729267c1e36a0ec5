-- ===== src/Abi/Decoder/Laws/Calls.antt =====
-- Reading the hexadecimal text of bytes, and the calldata that starts with a selector.
use mathlib.Core.Path.{ap₂}
use chain_indexer.Base.{
  ℕ, ◌+◌, ◌*◌, ◌/◌, ◌%◌, ◌<◌, ◌≡◌, ◌≢◌, refl, ap, sym, subst, ◌∙◌, String, false, Option, some,
  List, [], ◌∷◌, ◌++◌, length, length-append, ltb, arith, ◌==◌, string_comparable, All, All-append,
  ==→≡, ==_refl, Bool-cases, inl, inr,
}
use chain_indexer.Base.Text.{ascii, code-ascii, chars, remove_prefix, starts_with, hex_digit}
use chain_indexer.Base.Text
use chain_indexer.Notify.Payload.{hex_of, hex_char}
use chain_indexer.Parse.Bytes.{take, drop}
use chain_indexer.Parse.Value.{Value, Values, Fields, end}
use chain_indexer.Abi.Signature.{
  inputs_of, canonical_function_signature, function_selector, prefixed_hex,
}
use chain_indexer.Abi.Decoder.{
  decoded, is_blank, byte_of, before, decode_failed, decode_calldata, decode_values, from_hex,
  types_of, store_all, decode_function_call,
}

abbrev pub IsByte : ℕ → Type 0
IsByte b = b < 256

hex_digit-hex_char : (n : ℕ) → n < 16 → hex_digit (hex_char n) ≡ some n
unfolding hex_digit
hex_digit-hex_char n h = ground arith

hex_char-not_blank : (n : ℕ) → n < 16 → is_blank (hex_char n) ≡ false
hex_char-not_blank n h = ground arith

chars-hex_char :
    (n : ℕ) (s : String) → n < 16 → chars (String.◌∷◌ (ascii (hex_char n)) s) ≡ hex_char n ∷ chars s
unfolding chars
chars-hex_char n s h = rw (code-ascii (hex_char n) (ground arith)) refl

from_hex-pair :
    (m n : ℕ) (cs : List ℕ)
    → m < 16
    → n < 16
    → from_hex (hex_char m ∷ hex_char n ∷ cs) ≡ before (some (m * 16 + n)) (from_hex cs)
unfolding from_hex
from_hex-pair m n cs h k =
    open_pair (hex_char m) (hex_char n) (hex_char-not_blank m h)
    ∙ ap₂ (λ a b. before (byte_of a b) (from_hex cs)) (hex_digit-hex_char m h)
        (hex_digit-hex_char n k)
  where
    open_pair :
        (c d : ℕ)
        → is_blank c ≡ false
        → from_hex (c ∷ d ∷ cs) ≡ before (byte_of (hex_digit c) (hex_digit d)) (from_hex cs)
    open_pair c d e = rw (e, from_hex) refl

-- The text of bytes is read back.
pub from_hex-hex_of : (bs : List ℕ) → All IsByte bs → from_hex (chars (hex_of bs)) ≡ some bs
from_hex-hex_of [] h = unfold hex_of chars from_hex in refl
from_hex-hex_of (b ∷ bs) h =
    let hi : b / 16 < 16 = let b256 = h.0 in omega arith in
    let lo : b % 16 < 16 = omega arith in let rest = from_hex-hex_of bs h.1 in two_digits hi lo rest
  where
    two_digits :
        b / 16 < 16
        → b % 16 < 16
        → from_hex (chars (hex_of bs)) ≡ some bs
        → from_hex (chars (hex_of (b ∷ bs))) ≡ some (b ∷ bs)
    two_digits hi lo rest =
        unfold hex_of in
        rw
          (
            chars-hex_char (b / 16) (String.◌∷◌ (ascii (hex_char (b % 16))) (hex_of bs)) hi,
            chars-hex_char (b % 16) (hex_of bs) lo,
            from_hex-pair (b / 16) (b % 16) (chars (hex_of bs)) hi lo,
            rest,
          )
          (ap (λ n. some (n ∷ bs)) (omega arith))

read-prefixed_hex :
    (bs : List ℕ)
    → All IsByte bs
    → from_hex (chars (remove_prefix (prefixed_hex bs) "0x")) ≡ some bs
read-prefixed_hex bs h =
    unfold remove_prefix starts_with ascii Text.length Text.drop in from_hex-hex_of bs h

-- Different bytes have different texts.
prefixed_hex_inj :
    (as' bs : List ℕ)
    → All IsByte as'
    → All IsByte bs
    → prefixed_hex as' ≡ prefixed_hex bs
    → as' ≡ bs
prefixed_hex_inj as' bs h k e = some_inj (
    sym (read-prefixed_hex as' h)
    ∙ ap (λ s. from_hex (chars (remove_prefix s "0x"))) e
    ∙ read-prefixed_hex bs k)
  where
    some_inj : {xs ys : List ℕ} → some xs ≡ some ys → xs ≡ ys
    some_inj e = cc e

take-append : (as' bs : List ℕ) → take (length as') (as' ++ bs) ≡ as'
unfolding take
take-append [] bs = refl
take-append (a ∷ as') bs = ap (λ xs. a ∷ xs) (take-append as' bs)

drop-append : (as' bs : List ℕ) → drop (length as') (as' ++ bs) ≡ bs
unfolding drop
drop-append [] bs = refl
drop-append (a ∷ as') bs = drop-append as' bs

abbrev pub IsSelector : List ℕ → Type 0
IsSelector sel = (length sel ≡ 4) × All IsByte sel

module _ (eth_abi_decode : List String → List ℕ → Option (List Value))
    (function_signature_to_4byte_selector : String → List ℕ) (fn_abi : Value) (sig : String) where
  selector_known :
      canonical_function_signature fn_abi ≡ some sig
      → function_selector function_signature_to_4byte_selector fn_abi
        ≡ some (prefixed_hex (function_signature_to_4byte_selector sig))
  unfolding function_selector
  selector_known e = rw e refl

  call_step :
      (calldata expected : String) (raw : List ℕ)
      → function_selector function_signature_to_4byte_selector fn_abi ≡ some expected
      → from_hex (chars (remove_prefix calldata "0x")) ≡ some raw
      → decode_function_call eth_abi_decode function_signature_to_4byte_selector fn_abi calldata
        ≡ decode_calldata eth_abi_decode function_signature_to_4byte_selector fn_abi expected raw
  unfolding decode_function_call
  call_step calldata expected raw h k = rw (h, decode_function_call) (rw k refl)

  values_step :
      (inps : Values) (ts : List String) (vs : List Value) (raw : List ℕ) (args : Fields)
      → types_of inps ≡ some ts
      → eth_abi_decode ts raw ≡ some vs
      → store_all inps vs end ≡ some args
      → decode_values eth_abi_decode inps (some raw) end ≡ decoded args
  values_step inps ts vs raw args ht hv ha = rw (ht, decode_values) (rw hv (rw ha refl))

  -- The calldata that starts with the selector of a function, followed by bytes that eth-abi decodes to
  -- values of its inputs, decodes to those values under the names of the inputs, if the selectors are
  -- four bytes long and the values can be normalised.
  pub decode_function_call-encoded :
      (inps : Values) (ts : List String) (vs : List Value) (raw : List ℕ) (args : Fields)
      → canonical_function_signature fn_abi ≡ some sig
      → IsSelector (function_signature_to_4byte_selector sig)
      → All IsByte raw
      → inputs_of fn_abi ≡ some inps
      → types_of inps ≡ some ts
      → eth_abi_decode ts raw ≡ some vs
      → store_all inps vs end ≡ some args
      → decode_function_call eth_abi_decode function_signature_to_4byte_selector fn_abi
          (prefixed_hex (function_signature_to_4byte_selector sig ++ raw))
        ≡ decoded args
  decode_function_call-encoded inps ts vs raw args hs hsel hraw hi ht hv ha =
      let sel = function_signature_to_4byte_selector sig in
      let cut : take 4 (sel ++ raw) ≡ sel =
        subst (λ n. take n (sel ++ raw) ≡ sel) hsel.0 (take-append sel raw) in
      let rest : drop 4 (sel ++ raw) ≡ raw =
        subst (λ n. drop n (sel ++ raw) ≡ raw) hsel.0 (drop-append sel raw) in
      let long : ltb (length (sel ++ raw)) 4 ≡ false =
        ground (arith, length-append sel raw, hsel.0) in
      call_step (prefixed_hex (sel ++ raw)) (prefixed_hex sel) (sel ++ raw) (selector_known hs)
        (read-prefixed_hex (sel ++ raw) (All-append IsByte sel raw hsel.1 hraw))
      ∙ rw (long, cut, ==_refl (prefixed_hex sel), hi, rest)
          (values_step inps ts vs raw args ht hv ha)

  -- Calldata that starts with the selector of another function is refused as a failure to decode.
  pub decode_function_call-other :
      (sel raw : List ℕ)
      → canonical_function_signature fn_abi ≡ some sig
      → IsSelector (function_signature_to_4byte_selector sig)
      → IsSelector sel
      → All IsByte raw
      → sel ≢ function_signature_to_4byte_selector sig
      → decode_function_call eth_abi_decode function_signature_to_4byte_selector fn_abi
          (prefixed_hex (sel ++ raw))
        ≡ decode_failed
  decode_function_call-other sel raw hs hown hsel hraw ne =
      let own = function_signature_to_4byte_selector sig in
      let cut : take 4 (sel ++ raw) ≡ sel =
        subst (λ n. take n (sel ++ raw) ≡ sel) hsel.0 (take-append sel raw) in
      let long : ltb (length (sel ++ raw)) 4 ≡ false =
        ground (arith, length-append sel raw, hsel.0) in
      let differ : (prefixed_hex sel == prefixed_hex own) ≡ false =
        elim (Bool-cases (prefixed_hex sel == prefixed_hex own)) [
          | inl b ↦ absurd (ne (prefixed_hex_inj sel own hsel.1 hown.1 (==→≡ b)))
          | inr b ↦ b
        ] in
      call_step (prefixed_hex (sel ++ raw)) (prefixed_hex own) (sel ++ raw) (selector_known hs)
        (read-prefixed_hex (sel ++ raw) (All-append IsByte sel raw hsel.1 hraw))
      ∙ rw (long, cut, differ) refl
