-- ===== src/Run/Logs/Complete.antt =====
-- apps/worker/chain_runner.py: which logs the query of a range holds after it is split.
mod Tests
use mathlib.Core.Option
use mathlib.Core.List.{append_assoc, append-nil}
use chain_indexer.Base.{
  ℕ, zero, suc, ◌+◌, ◌-◌, ◌/◌, ◌≤◌, ◌<◌, String, ◌≡◌, ◌≢◌, refl, sym, ap, subst, ◌∙◌, Bool, true,
  false, ◌&&◌, Option, none, some, List, [], ◌∷◌, ◌++◌, filter, filter-append, ltb, leb, leb→le,
  le→leb, ◌==◌, nat_comparable, if◌then◌else◌, All, arith, Bool-cases, Option-cases, inl, inr, ==→≡,
  ==_refl, Returns,
}
use chain_indexer.Base.Dict.{
  Dict, get, put, get-put_self, get-put_ne, update_all, IsKeyed, put-IsKeyed, update_all-IsKeyed,
  or_else, get-update_all,
}
use chain_indexer.Chain.Types.{Log}
use chain_indexer.Run.Logs.{
  bucket_onto, bucket_by_block, Answer, logs_of, too_large, other_error, merged, fetch_with_fuel,
  fetch_logs_with_degrade,
}
use chain_indexer.Run.Logs.Buckets.{
  at, of_block, bucket_onto-IsKeyed, grow, get-bucket_onto, grown, or_else-none, filter-of_block,
}

abbrev pub within : ℕ → ℕ → ℕ → Bool
within start stop n = leb start n && leb n stop

module _ (chain : ℕ → List Log)
    (numbered : (n : ℕ) → All (λ lg. lg.block_number ≡ n) (chain n)) where
  -- The logs of as many blocks as are given, from one on.
  abbrev pub logs_between : ℕ → ℕ → List Log
  logs_between zero start = []
  logs_between (suc count) start = chain start ++ logs_between count (suc start)

  front :
      (n count start : ℕ) (b : Bool)
      → (start == n) ≡ b
      → (if b then chain start else [])
          ++ (if leb (suc start) n && ltb n (suc start + count) then chain n else [])
        ≡ (if leb start n && ltb n (start + suc count) then chain n else [])
  front n count start true e =
      let same : start ≡ n = ==→≡ e in
      let later : (leb (suc start) n && ltb n (suc start + count)) ≡ false = ground arith in
      let now : (leb start n && ltb n (start + suc count)) ≡ true = ground arith in
      rw (later, now) (append-nil (chain start) ∙ ap chain same)
  front n count start false e =
      let same : (leb (suc start) n && ltb n (suc start + count))
          ≡ (leb start n && ltb n (start + suc count)) =
        ground arith in
      ap (λ b. if b then chain n else []) same

  filter-logs_between :
      (n count start : ℕ)
      → filter (of_block n) (logs_between count start)
        ≡ (if leb start n && ltb n (start + count) then chain n else [])
  filter-logs_between n zero start = ground arith
  filter-logs_between n (suc count) start =
      filter-append (of_block n) (chain start) (logs_between count (suc start))
      ∙ ap (λ l. l ++ filter (of_block n) (logs_between count (suc start)))
          (filter-of_block n start (chain start) (numbered start))
      ∙ ap (λ l. (if start == n then chain start else []) ++ l)
          (filter-logs_between n count (suc start))
      ∙ front n count start (start == n) refl

  -- The entries of a dictionary of the logs of a range.
  abbrev IsComplete : ℕ → ℕ → Dict ℕ (List Log) → Type 0
  IsComplete start stop d =
      IsKeyed d × ((n : ℕ) → get n d ≡ grow none (if within start stop n then chain n else []))

  bucket-IsComplete :
      (start stop : ℕ)
      → start ≤ stop
      → IsComplete start stop (bucket_by_block (logs_between (suc stop - start) start))
  unfolding bucket_by_block
  bucket-IsComplete start stop h = (
    bucket_onto-IsKeyed (logs_between (suc stop - start) start) [] tt,
    λ n.
        get-bucket_onto n (logs_between (suc stop - start) start) []
        ∙ ap (grow none) (
            filter-logs_between n (suc stop - start) start
            ∙ ap (λ b. if b then chain n else []) (span n)),
  )
    where
      span : (n : ℕ) → (leb start n && ltb n (start + (suc stop - start))) ≡ within start stop n
      span n = ground arith

  halves :
      (start mid stop n : ℕ) (b : Bool)
      → start ≤ mid
      → mid < stop
      → leb n mid ≡ b
      → or_else
          (grow none (if within (mid + 1) stop n then chain n else []))
          (grow none (if within start mid n then chain n else []))
        ≡ grow none (if within start stop n then chain n else [])
  halves start mid stop n true h k e =
      let off : within (mid + 1) stop n ≡ false = ground arith in
      let on : within start mid n ≡ within start stop n = ground arith in
      rw off (ap (λ b. grow none (if b then chain n else [])) on)
  halves start mid stop n false h k e =
      let off : within start mid n ≡ false = ground arith in
      let on : within (mid + 1) stop n ≡ within start stop n = ground arith in
      rw off (
        or_else-none (grow none (if within (mid + 1) stop n then chain n else []))
        ∙ ap (λ b. grow none (if b then chain n else [])) on)

  update_all-IsComplete :
      (start mid stop : ℕ) (left right : Dict ℕ (List Log))
      → start ≤ mid
      → mid < stop
      → IsComplete start mid left
      → IsComplete (mid + 1) stop right
      → IsComplete start stop (update_all left right)
  update_all-IsComplete start mid stop left right h k p q = (
    update_all-IsKeyed left right p.0,
    λ n.
        get-update_all n left right q.0
        ∙ ap (λ o. or_else o (get n left)) (q.1 n)
        ∙ ap (λ o. or_else (grow none (if within (mid + 1) stop n then chain n else [])) o) (p.1 n)
        ∙ halves start mid stop n (leb n mid) h k refl,
  )

  -- The answers of a node: the logs of the range, or an error on a range of several blocks that names a
  -- limit.
  module _ (fetch_logs : ℕ → ℕ → Answer)
      (honest : (start stop : ℕ) (logs : List Log)
        → start ≤ stop
        → fetch_logs start stop ≡ logs_of logs
        → logs ≡ logs_between (suc stop - start) start)
      (no_error : (start stop : ℕ) → fetch_logs start stop ≢ other_error)
      (one_block : (n : ℕ) → fetch_logs n n ≢ too_large) where
    abbrev Fetched : ℕ → ℕ → Option (Dict ℕ (List Log)) → Type 0
    Fetched start stop r = (d : Dict ℕ (List Log)) × (r ≡ some d) × IsComplete start stop d

    step :
        (fuel start stop : ℕ) (a : Answer)
        → start ≤ stop
        → fetch_logs start stop ≡ a
        → (start < stop
            → Fetched start
                ((start + stop) / 2)
                (fetch_with_fuel fetch_logs fuel start ((start + stop) / 2)))
        → (start < stop
            → Fetched
                ((start + stop) / 2 + 1)
                stop
                (fetch_with_fuel fetch_logs fuel ((start + stop) / 2 + 1) stop))
        → Fetched start stop (fetch_with_fuel fetch_logs (suc fuel) start stop)
    unfolding fetch_with_fuel
    step fuel start stop (logs_of logs) h e left right =
        let same = honest start stop logs h e in
        rw (e, fetch_with_fuel)
          (
            bucket_by_block logs,
            refl,
            subst (λ l. IsComplete start stop (bucket_by_block l)) (sym same)
                (bucket-IsComplete start stop h),
          )
    step fuel start stop other_error h e left right = absurd (no_error start stop e)
    step fuel start stop too_large h e left right = elim (Bool-cases (ltb start stop)) [
      | inl b ↦
          let apart : start < stop = ground arith in
          let (dl, el, cl) = left apart in
          let (dr, er, cr) = right apart in
          rw (e, fetch_with_fuel, b)
            (
              update_all dl dr,
              rw (el, er) refl,
              update_all-IsComplete start ((start + stop) / 2) stop dl dr (omega arith)
                  (omega arith) cl cr,
            )
      | inr b ↦
          let same : start ≡ stop = ground arith in
          absurd (one_block stop (subst (λ n. fetch_logs n stop ≡ too_large) same e))
    ]

    fetch_with_fuel-Fetched :
        (fuel start stop : ℕ)
        → start ≤ stop
        → stop - start < fuel
        → Fetched start stop (fetch_with_fuel fetch_logs fuel start stop)
    fetch_with_fuel-Fetched zero start stop h k = absurd (omega arith)
    fetch_with_fuel-Fetched (suc fuel) start stop h k =
        step fuel start stop (fetch_logs start stop) h refl
          (λ l. fetch_with_fuel-Fetched fuel start ((start + stop) / 2) (omega arith) (omega arith))
          (λ l.
            fetch_with_fuel-Fetched fuel ((start + stop) / 2 + 1) stop (omega arith) (omega arith))

    -- If the node answers each range either with the logs of its blocks or with an error that names a
    -- limit, and a single block never with such an error, then the query of a range returns, and what it
    -- returns holds for each block of the range exactly the logs of that block, in order, and for other
    -- blocks none.
    pub fetch_logs_with_degrade-Complete :
        (start stop : ℕ)
        → start ≤ stop
        → (d : Dict ℕ (List Log)) × (fetch_logs_with_degrade fetch_logs start stop ≡ some d)
          × ((n : ℕ) → at n d ≡ (if within start stop n then chain n else []))
    unfolding fetch_logs_with_degrade
    fetch_logs_with_degrade-Complete start stop h =
        let (d, e, c) = fetch_with_fuel-Fetched (suc (stop - start)) start stop h (omega arith) in
        (
          d,
          e,
          λ n.
              ap (λ o. Option.get_or o []) (c.1 n)
              ∙ grown (if within start stop n then chain n else []),
        )
