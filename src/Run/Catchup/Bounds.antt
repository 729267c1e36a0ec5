-- ===== src/Run/Catchup/Bounds.antt =====
-- apps/worker/chain_runner.py: between which blocks the catch-up runs.
mod Tests
use chain_indexer.Base.{
  ℕ, zero, suc, ◌+◌, ◌-◌, ◌≤◌, ◌<◌, min, String, ◌≡◌, ◌≢◌, ◌⊎◌, subst, leb→gt, refl, sym, ap, ◌∙◌,
  Bool, true, false, not, Option, none, some, List, [], ◌∷◌, Among, Among-cases, here, there, arith,
  ltb, ◌==◌, ==_refl, ◌&&◌, string_comparable, if◌then◌else◌, Option-cases, Bool-cases, inl, inr,
}
use chain_indexer.Config.Snapshot.{SnapshotSubscription}
use chain_indexer.Run.Catchup.{sub_starts, with_checkpoint, minimum, bounds, catchup_bounds}

minimum_some : (n : ℕ) (ns : List ℕ) → Among n ns → minimum ns ≢ none
unfolding minimum
minimum_some n [] a e = elim a [ ]
minimum_some n (k ∷ ns) a e = elim (Option-cases (minimum ns)) [
  | inl f ↦ let g = rw (f, minimum) at e in cc g
  | inr (j, f) ↦ let g = rw (f, minimum) at e in cc g
]

minimum-Among : (n m : ℕ) (ns : List ℕ) → Among n ns → minimum ns ≡ some m → m ≤ n
unfolding minimum
minimum-Among n m [] a e = elim a [ ]
minimum-Among n m (k ∷ ns) here e = elim (Option-cases (minimum ns)) [
  | inl f ↦ let g = rw (f, minimum) at e in ground (arith, g)
  | inr (j, f) ↦ let g = rw (f, minimum) at e in ground (arith, g)
]
minimum-Among n m (k ∷ ns) (there a) e = elim (Option-cases (minimum ns)) [
  | inl f ↦ absurd (minimum_some n ns a f)
  | inr (j, f) ↦
      let h = minimum-Among n j ns a f in let g = rw (f, minimum) at e in ground (arith, g, h)
]

-- A range of blocks that ends at a safe tip and takes up a block that is done, or is as long as allowed.
abbrev pub Resumes : ℕ → ℕ → ℕ × ℕ → Type 0
Resumes done_block safe_tip r =
    (r.1 ≡ safe_tip)
    × (r.0 ≤ r.1)
    × (r.1 < r.0 + 10000)
    × ((r.0 ≤ suc done_block) ⊎ (r.1 ≡ r.0 + 9999))

bounds-Resumes :
    (n m safe_tip : ℕ) (r : ℕ × ℕ) → m ≤ n → bounds m safe_tip ≡ some r → Resumes n safe_tip r
unfolding bounds
bounds-Resumes n m safe_tip r h e = elim (Bool-cases (ltb m safe_tip)) [
  | inl b ↦
      let apart : m < safe_tip = ground arith in
      elim (Bool-cases (ltb 10000 (safe_tip - m))) [
        | inl c ↦
            let far : 10000 < safe_tip - m = ground arith in
            let f = rw (b, c, bounds) at e in
            let same : (safe_tip - 10000 + 1, safe_tip) ≡ r = cc f in
            subst (Resumes n safe_tip) same (refl, omega arith, omega arith, inr (omega arith))
        | inr c ↦
            let near : safe_tip - m ≤ 10000 = ground arith in
            let f = rw (b, c, bounds) at e in
            let same : (m + 1, safe_tip) ≡ r = cc f in
            subst (Resumes n safe_tip) same (refl, omega arith, omega arith, inl (omega arith))
      ]
  | inr b ↦ let f = rw (b, bounds) at e in absurd (cc f)
]

-- The block of a checkpoint, or the start block of an enabled subscription of the chain.
abbrev pub IsStart : String → List SnapshotSubscription → Option ℕ → ℕ → Type 0
IsStart chain_id subs checkpoint n =
    (checkpoint ≡ some n)
    ⊎ ((s : SnapshotSubscription) × Among s subs
        × (s.chain_id ≡ chain_id)
        × (s.enabled ≡ true)
        × (s.start_block ≡ some n))

sub_starts-Among :
    (chain_id : String) (subs : List SnapshotSubscription) (s : SnapshotSubscription) (n : ℕ)
    → Among s subs
    → s.chain_id ≡ chain_id
    → s.enabled ≡ true
    → s.start_block ≡ some n
    → Among n (sub_starts chain_id subs)
unfolding sub_starts
sub_starts-Among chain_id [] s n m c e b = elim m [ ]
sub_starts-Among chain_id (t ∷ ts) s n m c e b = elim (Among-cases s t ts m) [
  | inl same ↦
      let at : t.start_block ≡ some n = ap (λ x. x.start_block) (sym same) ∙ b in
      let on : t.enabled ≡ true = ap (λ x. x.enabled) (sym same) ∙ e in
      let named : (t.chain_id == chain_id) ≡ true =
        ap (λ x. x.chain_id == chain_id) (sym same)
        ∙ subst (λ x. (s.chain_id == x) ≡ true) c (==_refl s.chain_id) in
      rw (at, named, on, sub_starts) here
  | inr k ↦
      later t.start_block ((t.chain_id == chain_id) && t.enabled)
        (sub_starts-Among chain_id ts s n k c e b)
]
  where
    later :
        (o : Option ℕ) (p : Bool)
        → Among n (sub_starts chain_id ts)
        → Among n (elim o [
          | none ↦ sub_starts chain_id ts
          | some start ↦ if p then start ∷ sub_starts chain_id ts else sub_starts chain_id ts
        ])
    later none p k = k
    later (some start) true k = there k
    later (some start) false k = k

IsStart-Among :
    (chain_id : String) (subs : List SnapshotSubscription) (checkpoint : Option ℕ) (n : ℕ)
    → IsStart chain_id subs checkpoint n
    → Among n (with_checkpoint checkpoint (sub_starts chain_id subs))
IsStart-Among chain_id subs checkpoint n (inl e) = rw e here
IsStart-Among chain_id subs none n (inr (s, m, c, e, b)) =
    sub_starts-Among chain_id subs s n m c e b
IsStart-Among chain_id subs (some block) n (inr (s, m, c, e, b)) =
    there (sub_starts-Among chain_id subs s n m c e b)

-- A catch-up that runs ends at the tip less the confirmations, has at least one and at most 10000 blocks,
-- and starts no later than behind the checkpoint and behind each start block of an enabled subscription
-- of the chain, unless it has 10000 blocks.
pub catchup_bounds-Resumes :
    (chain_id : String) (subs : List SnapshotSubscription) (checkpoint : Option ℕ)
    (tip confirmations n : ℕ) (r : ℕ × ℕ)
    → IsStart chain_id subs checkpoint n
    → catchup_bounds chain_id subs checkpoint (some tip) confirmations ≡ some r
    → Resumes n (tip - confirmations) r
unfolding catchup_bounds
catchup_bounds-Resumes chain_id subs checkpoint tip confirmations n r start e =
    let a = IsStart-Among chain_id subs checkpoint n start in
    let ns = with_checkpoint checkpoint (sub_starts chain_id subs) in
    elim (Option-cases (minimum ns)) [
      | inl f ↦ absurd (minimum_some n ns a f)
      | inr (m, f) ↦
          let g = rw (f, catchup_bounds) at e in
          bounds-Resumes n m (tip - confirmations) r (minimum-Among n m ns a f) g
    ]
