-- ===== src/Parse/Internal/Depth.antt =====
-- core/parser/internal_call.py: which calls of the traces give an event.
mod Tests
use chain_indexer.Base.{
  ℕ, zero, suc, ◌+◌, ◌≤◌, ◌<◌, String, ◌≡◌, refl, sym, ap, ◌∙◌, Bool, true, false, not, ◌&&◌,
  Option, none, some, List, [], ◌∷◌, ◌++◌, filter, filter-append, leb, ltb, arith, if◌then◌else◌,
  Bool-cases, Option-cases, inl, inr,
}
use chain_indexer.Chain.Types.{
  Block, CallFrame, InternalCall, internal_call, InternalCalls, nil, cons,
}
use chain_indexer.Parse.Pipeline.{Yielded, quiet, continued, quiet-continued, continued_assoc}
use chain_indexer.Abi.Decoder.{Decoded}
use chain_indexer.Abi.Registry.Lookup.{Found}
use chain_indexer.Parse.Internal.{own_event, walk, walk_all, parse, try_decode}

-- A call of a trace, the number of calls around it, and whether neither it nor one of these failed.
pub record Visit : Type 0 where
  pub frame : CallFrame
  pub depth : ℕ
  pub succeeded : Bool

abbrev pub ok : CallFrame → Bool
ok f = elim f.error [ none ↦ true | some error ↦ false ]

-- All calls of the traces, each before the calls in it.
unfoldable mutual
  pub visits : InternalCall → ℕ → Bool → List Visit
  visits (internal_call f calls) depth b =
      record { frame = f; depth = depth; succeeded = b && ok f }
      ∷ visits_all calls (suc depth) (b && ok f)

  pub visits_all : InternalCalls → ℕ → Bool → List Visit
  visits_all nil depth b = []
  visits_all (cons c cs) depth b = visits c depth b ++ visits_all cs depth b

abbrev pub counts : Visit → Bool
counts v = v.succeeded && leb v.depth 64

visits-call :
    (f : CallFrame) (calls : InternalCalls) (depth : ℕ) (b : Bool)
    → visits (internal_call f calls) depth b
      ≡ record { frame = f; depth = depth; succeeded = b && ok f }
        ∷ visits_all calls (suc depth) (b && ok f)
unfolding visits
visits-call f calls depth b = refl

counts-cons :
    (c : InternalCall) (cs : InternalCalls) (depth : ℕ) (b : Bool)
    → filter counts (visits_all (cons c cs) depth b)
      ≡ filter counts (visits c depth b) ++ filter counts (visits_all cs depth b)
unfolding visits_all
counts-cons c cs depth b = filter-append counts (visits c depth b) (visits_all cs depth b)

counts-nil : (depth : ℕ) (b : Bool) → filter counts (visits_all nil depth b) ≡ []
unfolding visits_all
counts-nil depth b = refl

-- What does not count at a call does not count inside it.
counts-call_off :
    (f : CallFrame) (calls : InternalCalls) (depth : ℕ) (b : Bool)
    → (b && leb depth 64) ≡ false
    → filter counts (visits (internal_call f calls) depth b)
      ≡ filter counts (visits_all calls (suc depth) (b && ok f))
counts-call_off f calls depth b h = rw (visits-call f calls depth b) (ground arith)

off :
    (f : CallFrame) (depth : ℕ) (b : Bool)
    → (b && leb depth 64) ≡ false
    → ((b && ok f) && leb (suc depth) 64) ≡ false
off f depth b h = ground arith

both_nil : {xs ys : List Visit} → xs ≡ [] → ys ≡ [] → xs ++ ys ≡ []
both_nil p q = rw (p, q) refl

mutual
  none_inside :
      (c : InternalCall) (depth : ℕ) (b : Bool)
      → (b && leb depth 64) ≡ false
      → filter counts (visits c depth b) ≡ []
  none_inside (internal_call f calls) depth b h =
      counts-call_off f calls depth b h
      ∙ none_inside_all calls (suc depth) (b && ok f) (off f depth b h)

  none_inside_all :
      (cs : InternalCalls) (depth : ℕ) (b : Bool)
      → (b && leb depth 64) ≡ false
      → filter counts (visits_all cs depth b) ≡ []
  none_inside_all nil depth b h = counts-nil depth b
  none_inside_all (cons c cs) depth b h =
      counts-cons c cs depth b ∙ both_nil (none_inside c depth b h) (none_inside_all cs depth b h)

module _ (lookup : String → Found (String × (String → Decoded))) (chain_id : String)
    (block : Block) where
  -- The events of the calls, in order, up to the first that raises.
  abbrev pub events_of : List Visit → Yielded
  events_of [] = quiet
  events_of (v ∷ vs) = continued (own_event lookup chain_id block v.frame) (events_of vs)

  events_of-append :
      (vs ws : List Visit) → events_of (vs ++ ws) ≡ continued (events_of vs) (events_of ws)
  events_of-append [] ws = sym (quiet-continued (events_of ws))
  events_of-append (v ∷ vs) ws =
      ap (continued (own_event lookup chain_id block v.frame)) (events_of-append vs ws)
      ∙ sym
          (continued_assoc (own_event lookup chain_id block v.frame) (events_of vs) (events_of ws))

  walk_all-cons :
      (c : InternalCall) (cs : InternalCalls) (depth : ℕ)
      → walk lookup chain_id block c depth ≡ events_of (filter counts (visits c depth true))
      → walk_all lookup chain_id block cs depth
        ≡ events_of (filter counts (visits_all cs depth true))
      → walk_all lookup chain_id block (cons c cs) depth
        ≡ events_of (filter counts (visits_all (cons c cs) depth true))
  unfolding walk_all
  walk_all-cons c cs depth p q =
      rw (p, q)
        (sym (
          ap events_of (counts-cons c cs depth true)
          ∙ events_of-append (filter counts (visits c depth true))
              (filter counts (visits_all cs depth true))))

  walk-call :
      (f : CallFrame) (calls : InternalCalls) (depth : ℕ)
      → walk_all lookup chain_id block calls (suc depth)
        ≡ events_of (filter counts (visits_all calls (suc depth) true))
      → walk lookup chain_id block (internal_call f calls) depth
        ≡ events_of (filter counts (visits (internal_call f calls) depth true))
  unfolding walk visits try_decode
  walk-call f calls depth ih = elim (Option-cases f.error) [
    | inl e ↦ elim (Bool-cases (leb depth 64)) [
      | inl b ↦
          let deep : ltb 64 depth ≡ false = ground arith in
          rw (e, walk, b, deep) (ap (continued (own_event lookup chain_id block f)) ih)
      | inr b ↦
          let deep : ltb 64 depth ≡ true = ground arith in
          rw (none_inside (internal_call f calls) depth true b) (rw (e, walk, deep) refl)
    ]
    | inr (x, e) ↦ rw (e, walk) (ap events_of (sym (none_inside_all calls (suc depth) false refl)))
  ]

  walk_all-nil :
      (depth : ℕ)
      → walk_all lookup chain_id block nil depth
        ≡ events_of (filter counts (visits_all nil depth true))
  unfolding walk_all visits_all
  walk_all-nil depth = refl

  mutual
    walk-visits :
        (c : InternalCall) (depth : ℕ)
        → walk lookup chain_id block c depth ≡ events_of (filter counts (visits c depth true))
    walk-visits (internal_call f calls) depth =
        walk-call f calls depth (walk_all-visits calls (suc depth))

    walk_all-visits :
        (cs : InternalCalls) (depth : ℕ)
        → walk_all lookup chain_id block cs depth
          ≡ events_of (filter counts (visits_all cs depth true))
    walk_all-visits nil depth = walk_all-nil depth
    walk_all-visits (cons c cs) depth =
        walk_all-cons c cs depth (walk-visits c depth) (walk_all-visits cs depth)

  -- The parser gives the events of the calls of the traces that have at most 64 calls around them and
  -- that did not fail, nor a call around them, in the order of the traces, each call before those in it, up to
  -- the first on which the lookup or the decoder raises anything but DecodeFailed, which ends the parser.
  pub parse-visits :
      (traces : InternalCalls)
      → parse lookup chain_id block traces ≡ events_of (filter counts (visits_all traces 0 true))
  parse-visits traces = unfold parse in walk_all-visits traces 0
