-- ===== src/Chain/Buffer/Reorg.antt =====
-- core/chains/confirmation_buffer.py: what `handle_new_head` reports about a head that does not link.
use chain_indexer.Base.{
  ℕ, zero, suc, String, ◌≡◌, refl, sym, ap, subst, ◌∙◌, ◌⊎◌, inl, inr, false, true, some, List, [],
  ◌∷◌, ◌++◌, length, last, any, Option-cases, Returns,
}
use chain_indexer.Base.Int.{pos, negsuc, sub_ℕ}
use chain_indexer.Chain.Types.{BlockHeader}
use chain_indexer.Chain.Buffer.Lists.{drain_split, hash_is, by_hash_found, rewind-by_hash}
use chain_indexer.Chain.Buffer.{
  ConfirmationBuffer, Reply, confirmed, reorg, ReorgEvent, Walk, ancestor, exhausted, raised,
  Resolver, by_hash, links, oldest, walk_back, rejoin, reset, finish, handle_new_head,
}

-- The first header of a branch stands on a parent.
abbrev pub StandsOn : String → List BlockHeader → Type 0
StandsOn hash [] = ⊥
StandsOn hash (h ∷ hs) = h.parent_hash ≡ hash

-- The deque is cut behind a header `k`, to whose height the event rewinds, and the popped suffix, in which no
-- header has the hash of `k`, is reported, in order; the new branch takes its place, stands on `k` and ends
-- with the head; what is confirmed comes off the front.
pub record Rejoins (b : ConfirmationBuffer) (head : BlockHeader) (ev : ReorgEvent)
    (b' : ConfirmationBuffer) : Type 0 where
  pub older : List BlockHeader
  pub k : BlockHeader
  pub cut : (older ++ k ∷ []) ++ ev.dropped ≡ b.buf
  pub apart : any (hash_is k.hash) ev.dropped ≡ false
  pub rewound : ev.rewound_to ≡ pos k.number
  pub stands : StandsOn k.hash ev.new_branch
  pub ends : last ev.new_branch ≡ some head
  pub joined : ev.confirmed ++ b'.buf ≡ (older ++ k ∷ []) ++ ev.new_branch

-- The deque is dropped for the new head alone.
pub record Resets (b : ConfirmationBuffer) (head : BlockHeader) (ev : ReorgEvent)
    (b' : ConfirmationBuffer) : Type 0 where
  pub only_head : ev.confirmed ++ b'.buf ≡ head ∷ []
  pub from_oldest : ev.divergent_oldest ≡ oldest b.buf
  pub rewound : ev.rewound_to ≡ negsuc 0
  pub no_branch : ev.new_branch ≡ []
  pub none_dropped : ev.dropped ≡ []
  pub trigger : ev.new_head ≡ some head

abbrev pub Accounts : ConfirmationBuffer → BlockHeader → Reply × ConfirmationBuffer → Type 0
Accounts b head (confirmed popped, b') = ⊥
Accounts b head (reorg ev, b') =
    ((ev.deep ≡ false) × Rejoins b head ev b') ⊎ ((ev.deep ≡ true) × Resets b head ev b')

-- A walk that finds an ancestor finds the one that the buffer holds under the parent hash of the branch.
abbrev Finds : List BlockHeader → BlockHeader → Walk → Type 0
Finds buf head (ancestor a branch) =
    (by_hash buf a.hash ≡ some a) × StandsOn a.hash branch × (last branch ≡ some head)
Finds buf head exhausted = Unit
Finds buf head raised = Unit

walk_back-Finds :
    (rounds : ℕ) (buf : List BlockHeader) (resolve_parent : Resolver) (head cursor : BlockHeader)
    (newer : List BlockHeader)
    → last (cursor ∷ newer) ≡ some head
    → Finds buf head (walk_back rounds buf resolve_parent cursor (cursor ∷ newer))
unfolding walk_back
walk_back-Finds zero buf resolve_parent head cursor newer ends = tt
walk_back-Finds (suc n) buf resolve_parent head cursor newer ends =
    elim (Option-cases (by_hash buf cursor.parent_hash)) [
      | inr (a, e) ↦
          let same = (by_hash_found buf cursor.parent_hash a e).0 in
          rw (e, walk_back) (subst (λ t. by_hash buf t ≡ some a) (sym same) e, sym same, ends)
      | inl e ↦ elim (Option-cases (resolve_parent (sub_ℕ cursor.number 1) cursor.parent_hash)) [
        | inl f ↦ rw (e, f, walk_back) tt
        | inr (p, f) ↦
            rw (e, f, walk_back) (walk_back-Finds n buf resolve_parent head p (cursor ∷ newer) ends)
      ]
    ]

finish-Accounts :
    (b : ConfirmationBuffer) (head : BlockHeader) (w : Walk)
    → Finds b.buf head w
    → Returns (Accounts b head) (finish b head w)
unfolding rejoin reset
finish-Accounts b head (ancestor a branch) found =
    let (ks, kept, whole, apart) = rewind-by_hash b.buf a found.0 in
    inl (
      refl,
      record {
        older = ks;
        k = a;
        cut = whole;
        apart = apart;
        rewound = refl;
        stands = found.1;
        ends = found.2;
        joined = drain_split _ ∙ ap (λ l. l ++ branch) kept;
      },
    )
finish-Accounts b head exhausted found = inr (
  refl,
  record {
    only_head = drain_split _;
    from_oldest = refl;
    rewound = refl;
    no_branch = refl;
    none_dropped = refl;
    trigger = refl;
  },
)
finish-Accounts b head raised found = tt

-- A head that does not link, if `resolve_parent` does not raise, is reported by a reorg event. Either it is
-- not deep: the buffer is cut behind a header that it held, and rewound to its height; exactly the suffix
-- behind that header is reported as dropped, in which none has its hash; the new branch, which stands on
-- that header and ends with the head, follows the rest, and the confirmed headers are the front of that. Or
-- it is deep: the buffer is reset to the head, and the event gives the oldest height that was held, -1 as
-- the height rewound to, no branch and no dropped headers.
pub handle_new_head-Accounts :
    (b : ConfirmationBuffer) (head : BlockHeader) (resolve_parent : Resolver)
    (r : Reply × ConfirmationBuffer)
    → links b head ≡ false
    → handle_new_head b head resolve_parent ≡ some r
    → Accounts b head r
unfolding handle_new_head
handle_new_head-Accounts b head resolve_parent r no_link e =
    subst (Returns (Accounts b head)) (rw (no_link, handle_new_head) at e) (
      finish-Accounts b head _
        (walk_back-Finds (suc (length b.buf)) b.buf resolve_parent head head [] refl))
