-- ===== src/Chain/Buffer.antt =====
-- core/chains/confirmation_buffer.py: the sliding window of headers that are not yet confirmed.
mod Lists
pub mod Link
pub mod Depth
pub mod Reorg
mod Tests
use chain_indexer.Base.{
  ℕ, zero, suc, ◌+◌, String, Bool, Option, none, some, List, [], ◌∷◌, ◌++◌, reverse, leb, ◌==◌,
  string_comparable, if◌then◌else◌, length, last,
}
use chain_indexer.Base.Int.{ℤ, pos, negsuc, sub_ℕ}
use chain_indexer.Chain.Types.{BlockHeader}

pub record ReorgEvent : Type 0 where
  pub rewound_to : ℤ
  pub new_branch : List BlockHeader
  pub dropped : List BlockHeader
  pub confirmed : List BlockHeader
  pub deep : Bool
  pub divergent_oldest : ℤ
  pub new_head : Option BlockHeader

-- `buf` is the deque, oldest first.
pub record ConfirmationBuffer : Type 0 where
  pub confirmations : ℕ
  pub buf : List BlockHeader

pub data Reply : Type 0 where
  confirmed : List BlockHeader → Reply
  reorg : ReorgEvent → Reply

-- The `while` loop of `_drain_confirmed`: what it pops, and what stays. The depth
-- `tip_num - number` is compared without the subtraction, so that it may be negative.
pub drain_loop : ℕ → ℕ → List BlockHeader → List BlockHeader × List BlockHeader
drain_loop confirmations tip_num [] = ([], [])
drain_loop confirmations tip_num (h ∷ hs) =
    let (popped, rest) = drain_loop confirmations tip_num hs in
    if leb (h.number + confirmations) tip_num then (h ∷ popped, rest) else ([], h ∷ hs)

pub drain_confirmed : ConfirmationBuffer → List BlockHeader × ConfirmationBuffer
drain_confirmed b = elim (last b.buf) [
  | none ↦ ([], b)
  | some tip ↦
      let (popped, rest) = drain_loop b.confirmations tip.number b.buf in
      (popped, record b { buf = rest })
]

-- Does the head link to the tip, or is it the first?
pub links : ConfirmationBuffer → BlockHeader → Bool
links b head = elim (last b.buf) [ none ↦ Bool.true | some tip ↦ tip.hash == head.parent_hash ]

-- `none` is the ValueError.
pub append : ConfirmationBuffer → BlockHeader → Option (List BlockHeader × ConfirmationBuffer)
unfolding links drain_confirmed
append b head =
    if links b head then some (drain_confirmed (record b { buf = b.buf ++ head ∷ [] })) else none

-- The dict `by_hash`: of two headers with one hash the later is found.
pub by_hash : List BlockHeader → String → Option BlockHeader
by_hash [] hash = none
by_hash (h ∷ hs) hash = elim (by_hash hs hash) [
  | some found ↦ some found
  | none ↦ if h.hash == hash then some h else none
]

-- The loop that pops the divergent suffix, over the reversed deque. Each popped header goes in
-- front of `dropped`, which is the list that `dropped.reverse()` leaves.
pub rewind : String → List BlockHeader → List BlockHeader → List BlockHeader × List BlockHeader
rewind hash [] dropped = ([], dropped)
rewind hash (h ∷ hs) dropped =
    let further = rewind hash hs (h ∷ dropped) in
    if h.hash == hash then (h ∷ hs, dropped) else further

-- How the walk back along the new branch ends. The branch is oldest first.
pub data Walk : Type 0 where
  ancestor : BlockHeader → List BlockHeader → Walk
  exhausted raised : Walk

-- `resolve_parent`; `none` is an exception that it raises.
abbrev pub Resolver : Type 0
Resolver = ℤ → String → Option BlockHeader

pub walk_back : ℕ → List BlockHeader → Resolver → BlockHeader → List BlockHeader → Walk
walk_back zero buf resolve_parent cursor branch = exhausted
walk_back (suc rounds) buf resolve_parent cursor branch = elim (by_hash buf cursor.parent_hash) [
  | some found ↦ ancestor found branch
  | none ↦ elim (resolve_parent (sub_ℕ cursor.number 1) cursor.parent_hash) [
    | none ↦ raised
    | some parent ↦ walk_back rounds buf resolve_parent parent (parent ∷ branch)
  ]
]

abbrev pub oldest : List BlockHeader → ℤ
oldest [] = negsuc 0
oldest (h ∷ hs) = pos h.number

pub rejoin : ConfirmationBuffer → BlockHeader → List BlockHeader → Reply × ConfirmationBuffer
unfolding rewind drain_confirmed
rejoin b found branch =
    let (kept, dropped) = rewind found.hash (reverse b.buf) [] in
    let (popped, b') = drain_confirmed (record b { buf = reverse kept ++ branch }) in
    (
      reorg (record {
        rewound_to = pos found.number;
        new_branch = branch;
        dropped = dropped;
        confirmed = popped;
        deep = Bool.false;
        divergent_oldest = negsuc 0;
        new_head = none;
      }),
      b',
    )

pub reset : ConfirmationBuffer → BlockHeader → Reply × ConfirmationBuffer
unfolding drain_confirmed
reset b head =
    let (popped, b') = drain_confirmed (record b { buf = head ∷ [] }) in
    (
      reorg (record {
        rewound_to = negsuc 0;
        new_branch = [];
        dropped = [];
        confirmed = popped;
        deep = Bool.true;
        divergent_oldest = oldest b.buf;
        new_head = some head;
      }),
      b',
    )

abbrev finish : ConfirmationBuffer → BlockHeader → Walk → Option (Reply × ConfirmationBuffer)
finish b head (ancestor found branch) = some (rejoin b found branch)
finish b head exhausted = some (reset b head)
finish b head raised = none

abbrev clean : Option (List BlockHeader × ConfirmationBuffer) → Option (Reply × ConfirmationBuffer)
clean none = none
clean (some (popped, b)) = some (confirmed popped, b)

pub handle_new_head :
    ConfirmationBuffer → BlockHeader → Resolver → Option (Reply × ConfirmationBuffer)
unfolding links
handle_new_head b head resolve_parent =
    if links b head
    then clean (append b head)
    else finish b head (walk_back (suc (length b.buf)) b.buf resolve_parent head (head ∷ []))

-- What a reply confirms.
abbrev pub confirmed_of : Reply → List BlockHeader
confirmed_of (confirmed popped) = popped
confirmed_of (reorg event) = event.confirmed

abbrev pub deep_of : Reply → Bool
deep_of (confirmed popped) = Bool.false
deep_of (reorg event) = event.deep
