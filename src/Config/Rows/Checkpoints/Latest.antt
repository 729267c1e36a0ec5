-- ===== src/Config/Rows/Checkpoints/Latest.antt =====
-- core/config/repositories.py: reading the checkpoints after one is written.
use chain_indexer.Base.{
  ℕ, ◌≡◌, refl, sym, subst, ap, ◌∙◌, String, true, false, Option, none, some, List, [], ◌∷◌, ◌++◌,
  filter, ◌==◌, string_comparable, ==→≡, Bool-cases, Option-cases, inl, inr, if◌then◌else◌,
}
use chain_indexer.Config.Rows.{Checkpoint, Database, first}
use chain_indexer.Config.Rows.Checkpoints.{get, write, upsert}

abbrev find : String → List Checkpoint → Option Checkpoint
find k cs = first (filter (λ c. c.chain_id == k) cs)

-- One row in front.
find-cons_eq :
    (k : String) (c : Checkpoint) (cs : List Checkpoint)
    → (c.chain_id == k) ≡ true
    → find k (c ∷ cs) ≡ some c
find-cons_eq k c cs h =
    subst
      (λ b.
        first (if b then c ∷ filter (λ d. d.chain_id == k) cs else filter (λ d. d.chain_id == k) cs)
        ≡ some c)
      (sym h) refl

find-cons_ne :
    (k : String) (c : Checkpoint) (cs : List Checkpoint)
    → (c.chain_id == k) ≡ false
    → find k (c ∷ cs) ≡ find k cs
find-cons_ne k c cs h =
    subst
      (λ b.
        first (if b then c ∷ filter (λ d. d.chain_id == k) cs else filter (λ d. d.chain_id == k) cs)
        ≡ find k cs)
      (sym h) refl

module _ (chain_id : String) (last_block : ℕ) (last_block_hash : String) (other : String) where
  abbrev pub row : Checkpoint
  row = record { chain_id = chain_id; last_block = last_block; last_block_hash = last_block_hash }

  abbrev read_after : List Checkpoint → Option Checkpoint
  read_after cs = if chain_id == other then some row else find other cs

  read_row : (cs : List Checkpoint) → (chain_id == other) ≡ true → some row ≡ read_after cs
  read_row cs h = rw h refl

  read_rest : (cs : List Checkpoint) → (chain_id == other) ≡ false → find other cs ≡ read_after cs
  read_rest cs h = rw h refl

  -- A row of another chain in front changes nothing but itself.
  differs :
      (d : Checkpoint)
      → (d.chain_id == chain_id) ≡ false
      → (d.chain_id == other) ≡ true
      → (chain_id == other) ≡ false
  differs d h g = elim (Bool-cases (chain_id == other)) [
    | inr b ↦ b
    | inl b ↦
        let a : chain_id ≡ other = ==→≡ b in
        absurd (cc (h, subst (λ i. (d.chain_id == i) ≡ true) (sym a) g))
  ]

  behind :
      (d : Checkpoint) (cs ds : List Checkpoint)
      → (d.chain_id == chain_id) ≡ false
      → find other ds ≡ read_after cs
      → find other (d ∷ ds) ≡ read_after (d ∷ cs)
  behind d cs ds h e = elim (Bool-cases (d.chain_id == other)) [
    | inl b ↦
        find-cons_eq other d ds b
        ∙ sym (find-cons_eq other d cs b)
        ∙ read_rest (d ∷ cs) (differs d h b)
    | inr b ↦
        find-cons_ne other d ds b
        ∙ e
        ∙ ap (λ o. if chain_id == other then some row else o) (sym (find-cons_ne other d cs b))
  ]

  in_place :
      (d : Checkpoint) (cs : List Checkpoint)
      → (d.chain_id == chain_id) ≡ true
      → find other (record d { last_block = last_block; last_block_hash = last_block_hash } ∷ cs)
        ≡ read_after (d ∷ cs)
  in_place d cs h =
      let same : d.chain_id ≡ chain_id = ==→≡ h in
      let new = record d { last_block = last_block; last_block_hash = last_block_hash } in
      elim (Bool-cases (chain_id == other)) [
        | inl b ↦
            find-cons_eq other new cs (subst (λ i. (i == other) ≡ true) (sym same) b)
            ∙ ap (λ i. some (record row { chain_id = i })) same
            ∙ read_row (d ∷ cs) b
        | inr b ↦
            let b' = subst (λ i. (i == other) ≡ false) (sym same) b in
            find-cons_ne other new cs b' ∙ sym (find-cons_ne other d cs b') ∙ read_rest (d ∷ cs) b
      ]

  -- The first row of the chain is replaced.
  find-write :
      (cs : List Checkpoint) (c : Checkpoint)
      → find chain_id cs ≡ some c
      → find other (write chain_id last_block last_block_hash cs) ≡ read_after cs
  unfolding write
  find-write [] c h = absurd (cc h)
  find-write (d ∷ cs) c h = elim (Bool-cases (d.chain_id == chain_id)) [
    | inl b ↦ rw (b, write) (in_place d cs b)
    | inr b ↦
        rw (b, write)
          (behind d cs (write chain_id last_block last_block_hash cs) b
            (find-write cs c (sym (find-cons_ne chain_id d cs b) ∙ h)))
  ]

  -- A row is added behind the others.
  find-append :
      (cs : List Checkpoint) → find chain_id cs ≡ none → find other (cs ++ row ∷ []) ≡ read_after cs
  find-append [] h = elim (Bool-cases (chain_id == other)) [
    | inl b ↦ find-cons_eq other row [] b ∙ read_row [] b
    | inr b ↦ find-cons_ne other row [] b ∙ read_rest [] b
  ]
  find-append (d ∷ cs) h = elim (Bool-cases (d.chain_id == chain_id)) [
    | inl b ↦ absurd (cc (sym (find-cons_eq chain_id d cs b) ∙ h))
    | inr b ↦
        behind d cs (cs ++ row ∷ []) b (find-append cs (sym (find-cons_ne chain_id d cs b) ∙ h))
  ]

  -- After a checkpoint is written, that chain reads it, and every other chain reads what it read before.
  pub get-upsert :
      (db : Database)
      → get other (upsert chain_id last_block last_block_hash db)
        ≡ (if chain_id == other then some row else get other db)
  unfolding upsert get
  get-upsert db = elim (Option-cases (find chain_id db.checkpoints)) [
    | inl e ↦ rw (e, upsert) (find-append db.checkpoints e)
    | inr (c, e) ↦ rw (e, upsert) (find-write db.checkpoints c e)
  ]
