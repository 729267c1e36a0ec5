-- ===== src/Config/Rows/Deliveries/Cleanup.antt =====
-- core/config/repositories.py: which rows `cleanup_success` picks, and which it keeps.
use chain_indexer.Base.{
  ℕ, zero, suc, ◌-◌, ◌≤◌, min, ◌≡◌, refl, sym, subst, ap, ◌∙◌, String, Bool, true, false, not, List,
  [], ◌∷◌, map, filter, contains, length, leb, leb→le, leb→gt, arith, ◌==◌, ◌||◌, string_comparable,
  ==→≡, Bool-cases, inl, inr, All, Among, here, there, Among-cases, filter-Among, if◌then◌else◌,
}
use chain_indexer.Config.Rows.Deliveries.{
  DeliveryRecord, is_success, take, drop, insert, newest_first, victims, cleanup_success,
}

-- Each row is as new as those behind it.
abbrev AreOrdered : List DeliveryRecord → Type 0
AreOrdered [] = Unit
AreOrdered (r ∷ rs) = All (λ s. s.created_at ≤ r.created_at) rs × AreOrdered rs

All-insert {κ} :
    (P : DeliveryRecord → Type κ) (r : DeliveryRecord) (rs : List DeliveryRecord)
    → P r
    → All P rs
    → All P (insert r rs)
unfolding insert
All-insert P r [] h g = (h, tt)
All-insert P r (s ∷ ss) h g = elim (Bool-cases (leb s.created_at r.created_at)) [
  | inl b ↦ rw (b, insert) (h, g)
  | inr b ↦ rw (b, insert) (g.0, All-insert P r ss h g.1)
]

All-older :
    (a b : ℕ) (rs : List DeliveryRecord)
    → a ≤ b
    → All (λ s. s.created_at ≤ a) rs
    → All (λ s. s.created_at ≤ b) rs
All-older a b [] h g = tt
All-older a b (r ∷ rs) h g = (let k = g.0 in omega arith, All-older a b rs h g.1)

insert-AreOrdered :
    (r : DeliveryRecord) (rs : List DeliveryRecord) → AreOrdered rs → AreOrdered (insert r rs)
unfolding insert
insert-AreOrdered r [] h = (tt, tt)
insert-AreOrdered r (s ∷ ss) h = elim (Bool-cases (leb s.created_at r.created_at)) [
  | inl b ↦
      let le = leb→le s.created_at r.created_at b in
      rw (b, insert) ((le, All-older s.created_at r.created_at ss le h.0), h)
  | inr b ↦
      let gt = leb→gt s.created_at r.created_at b in
      rw (b, insert)
        (
          All-insert (λ t. t.created_at ≤ s.created_at) r ss (omega arith) h.0,
          insert-AreOrdered r ss h.1,
        )
]

newest_first-AreOrdered : (rs : List DeliveryRecord) → AreOrdered (newest_first rs)
unfolding newest_first
newest_first-AreOrdered [] = tt
newest_first-AreOrdered (r ∷ rs) =
    insert-AreOrdered r (newest_first rs) (newest_first-AreOrdered rs)

length-insert :
    (r : DeliveryRecord) (rs : List DeliveryRecord) → length (insert r rs) ≡ suc (length rs)
unfolding insert
length-insert r [] = refl
length-insert r (s ∷ ss) = elim (Bool-cases (leb s.created_at r.created_at)) [
  | inl b ↦ rw (b, insert) refl
  | inr b ↦ rw (b, insert) (ap suc (length-insert r ss))
]

length-newest_first : (rs : List DeliveryRecord) → length (newest_first rs) ≡ length rs
unfolding newest_first
length-newest_first [] = refl
length-newest_first (r ∷ rs) = length-insert r (newest_first rs) ∙ ap suc (length-newest_first rs)

module _ {κ} (P : DeliveryRecord → Type κ) where
  All-take : (n : ℕ) (rs : List DeliveryRecord) → All P rs → All P (take n rs)
  All-take zero rs h = tt
  All-take (suc n) [] h = tt
  All-take (suc n) (r ∷ rs) h = (h.0, All-take n rs h.1)

  All-drop : (n : ℕ) (rs : List DeliveryRecord) → All P rs → All P (drop n rs)
  All-drop zero rs h = h
  All-drop (suc n) [] h = tt
  All-drop (suc n) (r ∷ rs) h = All-drop n rs h.1

  All-newest_first : (rs : List DeliveryRecord) → All P rs → All P (newest_first rs)
  unfolding newest_first
  All-newest_first [] h = tt
  All-newest_first (r ∷ rs) h = All-insert P r (newest_first rs) h.0 (All-newest_first rs h.1)

length-take-drop :
    (n m : ℕ) (rs : List DeliveryRecord) → length (take m (drop n rs)) ≡ min m (length rs - n)
length-take-drop zero zero rs = ground arith
length-take-drop zero (suc m) [] = ground arith
length-take-drop zero (suc m) (r ∷ rs) = let k = length-take-drop zero m rs in ground (arith, k)
length-take-drop (suc n) zero [] = ground arith
length-take-drop (suc n) (suc m) [] = ground arith
length-take-drop (suc n) m (r ∷ rs) = let k = length-take-drop n m rs in ground (arith, k)

drop-AreOrdered : (n : ℕ) (rs : List DeliveryRecord) → AreOrdered rs → AreOrdered (drop n rs)
drop-AreOrdered zero rs h = h
drop-AreOrdered (suc n) [] h = tt
drop-AreOrdered (suc n) (r ∷ rs) h = drop-AreOrdered n rs h.1

-- The rows in front are as new as each row behind them.
split-AreOrdered :
    (n : ℕ) (rs : List DeliveryRecord)
    → AreOrdered rs
    → All (λ v. All (λ r. v.created_at ≤ r.created_at) (take n rs)) (drop n rs)
split-AreOrdered zero rs h = none_before rs
  where
    none_before :
        (ss : List DeliveryRecord)
        → All (λ v. All (λ r. v.created_at ≤ r.created_at) (take zero rs)) ss
    none_before [] = tt
    none_before (s ∷ ss) = (tt, none_before ss)
split-AreOrdered (suc n) [] h = tt
split-AreOrdered (suc n) (r ∷ rs) h =
    both (drop n rs) (All-drop (λ v. v.created_at ≤ r.created_at) n rs h.0)
      (split-AreOrdered n rs h.1)
  where
    both :
        (ss : List DeliveryRecord)
        → All (λ v. v.created_at ≤ r.created_at) ss
        → All (λ v. All (λ x. v.created_at ≤ x.created_at) (take n rs)) ss
        → All (λ v. All (λ x. v.created_at ≤ x.created_at) (r ∷ take n rs)) ss
    both [] f g = tt
    both (s ∷ ss) f g = ((f.0, g.0), both ss f.1 g.1)

filter-successes :
    (rs : List DeliveryRecord) → All (λ r. is_success r ≡ true) (filter is_success rs)
filter-successes [] = tt
filter-successes (r ∷ rs) = tested (is_success r) refl (filter-successes rs)
  where
    tested :
        (b : Bool)
        → is_success r ≡ b
        → All (λ s. is_success s ≡ true) (filter is_success rs)
        → All
            (λ s. is_success s ≡ true)
            (if b then r ∷ filter is_success rs else filter is_success rs)
    tested true h rest = (h, rest)
    tested false h rest = rest

-- The rows that a cleanup picks are successes, as many as there are above `keep` but no more than `batch`,
-- none is newer than any of the `keep` newest rows, and none is older than any of the rows that are above
-- `keep` as well but are left over by `batch`.
pub victims_between :
    (keep batch : ℕ) (rows : List DeliveryRecord)
    → All (λ v. is_success v ≡ true) (victims keep batch rows)
      × (length (victims keep batch rows) ≡ min batch (length (filter is_success rows) - keep))
      × All
          (λ v.
            All
              (λ r. v.created_at ≤ r.created_at)
              (take keep (newest_first (filter is_success rows))))
          (victims keep batch rows)
      × All
          (λ r. All (λ v. r.created_at ≤ v.created_at) (victims keep batch rows))
          (drop batch (drop keep (newest_first (filter is_success rows))))
unfolding victims
victims_between keep batch rows =
    let sorted = newest_first (filter is_success rows) in
    let successes =
      All-newest_first (λ r. is_success r ≡ true) (filter is_success rows)
        (filter-successes rows) in
    (
      All-take (λ r. is_success r ≡ true) batch (drop keep sorted)
          (All-drop (λ r. is_success r ≡ true) keep sorted successes),
      length-take-drop keep batch sorted
          ∙ ap (λ n. min batch (n - keep)) (length-newest_first (filter is_success rows)),
      All-take (λ v. All (λ r. v.created_at ≤ r.created_at) (take keep sorted)) batch
          (drop keep sorted)
          (split-AreOrdered keep sorted (newest_first-AreOrdered (filter is_success rows))),
      split-AreOrdered batch (drop keep sorted)
          (drop-AreOrdered keep sorted (newest_first-AreOrdered (filter is_success rows))),
    )

-- Ids are primary keys.
abbrev pub AreKeys : List DeliveryRecord → Type 0
AreKeys rows = (r s : DeliveryRecord) → Among r rows → Among s rows → r.id ≡ s.id → r ≡ s

All-Among {κ} :
    (P : DeliveryRecord → Type κ) (r : DeliveryRecord) (rs : List DeliveryRecord)
    → All P rs
    → Among r rs
    → P r
All-Among P r [] h m = elim m [ ]
All-Among P r (s ∷ ss) h m = elim (Among-cases r s ss m) [
  | inl same ↦ subst P (sym same) h.0
  | inr n ↦ All-Among P r ss h.1 n
]

filter-All :
    (p : DeliveryRecord → Bool) (rows rs : List DeliveryRecord)
    → ((r : DeliveryRecord) → Among r rs → Among r rows)
    → All (λ r. Among r rows) (filter p rs)
filter-All p rows [] f = tt
filter-All p rows (r ∷ rs) f =
    let rest = filter-All p rows rs (λ s m. f s (there m)) in
    elim (Bool-cases (p r)) [ inl b ↦ rw b (f r here, rest) | inr b ↦ rw b rest ]

victims_stored :
    (keep batch : ℕ) (rows : List DeliveryRecord)
    → All (λ r. Among r rows) (victims keep batch rows)
unfolding victims
victims_stored keep batch rows =
    All-take (λ r. Among r rows) batch (drop keep (newest_first (filter is_success rows)))
      (All-drop (λ r. Among r rows) keep (newest_first (filter is_success rows))
        (All-newest_first (λ r. Among r rows) (filter is_success rows)
          (filter-All is_success rows rows (λ s m. m))))

contains-Among :
    (cid : String) (vs : List DeliveryRecord)
    → contains cid (map (λ v. v.id) vs) ≡ true
    → (v : DeliveryRecord) × Among v vs × (cid ≡ v.id)
contains-Among cid [] h = absurd (cc h)
contains-Among cid (v ∷ vs) h = elim (Bool-cases (cid == v.id)) [
  | inl b ↦ (v, here, ==→≡ b)
  | inr b ↦
      let r =
        contains-Among cid vs (subst (λ t. (t || contains cid (map (λ w. w.id) vs)) ≡ true) b h) in
      (r.0, there r.1, r.2)
]

-- A cleanup keeps every row that is no success.
pub cleanup_success-keeps :
    (keep batch : ℕ) (rows : List DeliveryRecord) (r : DeliveryRecord)
    → AreKeys rows
    → Among r rows
    → is_success r ≡ false
    → Among r (cleanup_success keep batch rows)
unfolding cleanup_success
cleanup_success-keeps keep batch rows r keyed m h =
    filter-Among (λ s. not (contains s.id (map (λ v. v.id) (victims keep batch rows)))) r rows m
      (elim (Bool-cases (contains r.id (map (λ v. v.id) (victims keep batch rows)))) [
        | inr b ↦ rw b refl
        | inl b ↦
            let v = contains-Among r.id (victims keep batch rows) b in
            let stored =
              All-Among (λ s. Among s rows) v.0 (victims keep batch rows)
                (victims_stored keep batch rows) v.1 in
            let same = keyed r v.0 m stored v.2 in
            let won =
              All-Among (λ s. is_success s ≡ true) v.0 (victims keep batch rows)
                (victims_between keep batch rows).0 v.1 in
            absurd (cc (h, subst (λ s. is_success s ≡ true) (sym same) won))
      ])
