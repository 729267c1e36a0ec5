-- ===== src/Chain/Buffer/Tests.antt =====
-- Concrete heads for the confirmation buffer: a fork at height 2, with two confirmations.
use chain_indexer.Base.{
  ℕ, String, ◌≡◌, ◌≤◌, ◌↔◌, refl, false, none, some, List, [], ◌∷◌, arith, length, if◌then◌else◌,
  ◌==◌, string_comparable,
}
use text.Mathlib.TextEquality.{eq_iff}
use chain_indexer.Base.Int.{pos, negsuc}
use chain_indexer.Chain.Types.{BlockHeader}
use chain_indexer.Chain.Buffer.Link.{IsHonest, Run, start, head, IsLinked, Run-IsLinked}
use chain_indexer.Chain.Buffer.Depth.{Appends, append_exact, append_bound}
use chain_indexer.Chain.Buffer.Reorg.{Accounts, handle_new_head-Accounts}
use chain_indexer.Chain.Buffer.{
  ConfirmationBuffer, Reply, confirmed, reorg, Resolver, append, handle_new_head, links, drain_loop,
  drain_confirmed, by_hash, rewind, walk_back, rejoin,
}

abbrev header : ℕ → String → String → BlockHeader
header number hash parent = record {
  number = number;
  hash = hash;
  parent_hash = parent;
  timestamp = 0;
}

abbrev genesis : ConfirmationBuffer
genesis = record { confirmations = 2; buf = [] }

abbrev held : ConfirmationBuffer
held = record { confirmations = 2; buf = header 1 "a1" "a0" ∷ header 2 "a2" "a1" ∷ [] }

-- The prefetched ancestors: the fork's block at height 2.
abbrev fork : Resolver
fork n hash = if hash == "b2" then some (header 2 "b2" "a1") else none

fork-IsHonest : IsHonest fork
fork-IsHonest n hash p e = ground (arith, e, eq_iff hash "b2")

append_runs :
    append held (header 3 "a3" "a2")
    ≡ some (
      header 1 "a1" "a0" ∷ [],
      record { confirmations = 2; buf = header 2 "a2" "a1" ∷ header 3 "a3" "a2" ∷ [] },
    )
unfolding append links drain_confirmed drain_loop
append_runs = refl

append_refuses : append held (header 3 "b3" "b2") ≡ none
unfolding append links
append_refuses = refl

abbrev after_fork : ConfirmationBuffer
after_fork = record { confirmations = 2; buf = header 2 "b2" "a1" ∷ header 3 "b3" "b2" ∷ [] }

abbrev fork_reply : Reply
fork_reply = reorg (record {
  rewound_to = pos 1;
  new_branch = header 2 "b2" "a1" ∷ header 3 "b3" "b2" ∷ [];
  dropped = header 2 "a2" "a1" ∷ [];
  confirmed = header 1 "a1" "a0" ∷ [];
  deep = false;
  divergent_oldest = negsuc 0;
  new_head = none;
})

fork_runs : handle_new_head held (header 3 "b3" "b2") fork ≡ some (fork_reply, after_fork)
unfolding handle_new_head links walk_back by_hash rejoin rewind drain_confirmed drain_loop
fork_runs = refl

abbrev stranger : BlockHeader
stranger = header 9 "z9" "z8"

append_exact_example :
    ((links held (header 3 "a3" "a2") ≡ false) ↔ (append held (header 3 "a3" "a2") ≡ none))
    × ((r : List BlockHeader × ConfirmationBuffer)
        → append held (header 3 "a3" "a2") ≡ some r
        → Appends held (header 3 "a3" "a2") r)
append_exact_example = append_exact held (header 3 "a3" "a2")

append_bound_example : length (header 2 "a2" "a1" ∷ header 3 "a3" "a2" ∷ []) ≤ 2
append_bound_example =
    append_bound held (header 3 "a3" "a2") (header 1 "a1" "a0" ∷ [])
      (record { confirmations = 2; buf = header 2 "a2" "a1" ∷ header 3 "a3" "a2" ∷ [] }) append_runs
      (omega arith)

handle_new_head-Accounts_example : Accounts held (header 3 "b3" "b2") (fork_reply, after_fork)
unfolding links
handle_new_head-Accounts_example =
    handle_new_head-Accounts held (header 3 "b3" "b2") fork (fork_reply, after_fork) refl fork_runs

first :
    handle_new_head genesis (header 1 "a1" "a0") fork
    ≡ some (confirmed [], record { confirmations = 2; buf = header 1 "a1" "a0" ∷ [] })
unfolding handle_new_head append links drain_confirmed drain_loop
first = refl

second :
    handle_new_head
      (record { confirmations = 2; buf = header 1 "a1" "a0" ∷ [] })
      (header 2 "a2" "a1")
      fork
    ≡ some (confirmed [], held)
unfolding handle_new_head append links drain_confirmed drain_loop
second = refl

forked : Run 2 (header 1 "a1" "a0" ∷ []) after_fork
forked =
    head
      (head (head start (header 1 "a1" "a0") fork fork-IsHonest first refl refl)
        (header 2 "a2" "a1") fork fork-IsHonest second refl refl)
      (header 3 "b3" "b2") fork fork-IsHonest fork_runs refl refl

Run-IsLinked_example : IsLinked (header 1 "a1" "a0" ∷ header 2 "b2" "a1" ∷ header 3 "b3" "b2" ∷ [])
Run-IsLinked_example = Run-IsLinked (header 1 "a1" "a0" ∷ []) after_fork (omega arith) forked
