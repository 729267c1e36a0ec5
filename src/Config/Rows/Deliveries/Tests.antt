-- ===== src/Config/Rows/Deliveries/Tests.antt =====
-- Three rows of successes, and two rows, one of them a failure.
use chain_indexer.Base.{
  ℕ, ◌≤◌, ◌-◌, min, ◌≡◌, refl, String, true, false, none, List, [], ◌∷◌, filter, length, All, Among,
  here, there, Among-cases, inl, inr, ◌⊎◌, sym, ap, ◌∙◌, subst, ==_refl, ◌==◌, string_comparable,
}
use chain_indexer.Parse.Value.{end}
use chain_indexer.Config.Rows.Deliveries.{
  DeliveryRecord, DeliveryStatus, success, failed, is_success, take, drop, insert, newest_first,
  victims, cleanup_success,
}
use chain_indexer.Config.Rows.Deliveries.Cleanup.{AreKeys, victims_between, cleanup_success-keeps}

abbrev delivery : String → DeliveryStatus → ℕ → DeliveryRecord
delivery id status created_at = record {
  id = id;
  subscription_id = "s1";
  channel_id = "c1";
  chain_id = "eth";
  event_payload = end;
  error = none;
  attempts = 1;
  status = status;
  created_at = created_at;
  resolved_at = none;
  is_replay = false;
}

-- Of three successes above which one is kept, a batch of one picks the second, not the oldest.
abbrev three : List DeliveryRecord
three = delivery "d1" success 1 ∷ delivery "d2" success 2 ∷ delivery "d3" success 3 ∷ []

second_goes : victims 1 1 three ≡ delivery "d2" success 2 ∷ []
unfolding victims newest_first insert is_success
second_goes = refl

victims_between_example :
    All (λ v. is_success v ≡ true) (victims 1 1 three)
    × (length (victims 1 1 three) ≡ min 1 (length (filter is_success three) - 1))
    × All
        (λ v.
          All (λ r. v.created_at ≤ r.created_at) (take 1 (newest_first (filter is_success three))))
        (victims 1 1 three)
    × All
        (λ r. All (λ v. r.created_at ≤ v.created_at) (victims 1 1 three))
        (drop 1 (drop 1 (newest_first (filter is_success three))))
victims_between_example = victims_between 1 1 three

abbrev two : List DeliveryRecord
two = delivery "d1" success 1 ∷ delivery "d2" failed 2 ∷ []

abbrev first : DeliveryRecord
first = delivery "d1" success 1

abbrev second : DeliveryRecord
second = delivery "d2" failed 2

apart : false ≡ true → ⊥
apart e = cc e

differ : first.id ≡ second.id → ⊥
differ e = apart (subst (λ x. (first.id == x) ≡ true) e (==_refl first.id))

one_of : (r : DeliveryRecord) → Among r two → (r ≡ first) ⊎ (r ≡ second)
one_of r m = elim (Among-cases r first (second ∷ []) m) [
  | inl a ↦ inl a
  | inr n ↦ elim (Among-cases r second [] n) [ inl b ↦ inr b | inr k ↦ absurd (elim k [ ]) ]
]

two-AreKeys : AreKeys two
two-AreKeys r s m n e = elim (one_of r m) [
  | inl a ↦ elim (one_of s n) [
    | inl b ↦ a ∙ sym b
    | inr b ↦ absurd (differ (ap (λ x. x.id) (sym a) ∙ e ∙ ap (λ x. x.id) b))
  ]
  | inr a ↦ elim (one_of s n) [
    | inr b ↦ a ∙ sym b
    | inl b ↦ absurd (differ (sym (ap (λ x. x.id) (sym a) ∙ e ∙ ap (λ x. x.id) b)))
  ]
]

cleanup_success-keeps_example : Among (delivery "d2" failed 2) (cleanup_success 0 5 two)
cleanup_success-keeps_example =
    cleanup_success-keeps 0 5 two (delivery "d2" failed 2) two-AreKeys (there here) refl
