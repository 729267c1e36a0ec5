-- ===== src/Notify/Payload/Json.antt =====
-- core/notifier/payload.py: which values a payload has.
pub mod Tests
use chain_indexer.Base.{
  ℕ, String, ◌≡◌, refl, Bool, true, false, ◌&&◌, Option, none, some, List, ◌==◌, string_comparable,
  if◌then◌else◌, arith,
}
use chain_indexer.Base.Int.{ℤ}
use chain_indexer.Config.Snapshot.{SnapshotSubscription}
use chain_indexer.Parse.Value.{
  Value, null, bool, int, str, bytes, list, tuple, dict, Values, nil, cons, Fields, end, field,
}
use chain_indexer.Parse.Event.{Event}
use chain_indexer.Notify.Payload.{
  safe, safe_values, safe_fields, event_fields, business_field, text_or_null, number_or_null,
  build_payload,
}

-- Values that JSON has: neither bytes nor tuples.
unfoldable mutual
  pub is_json : Value → Bool
  is_json (bytes bs) = false
  is_json (tuple vs) = false
  is_json (list vs) = are_json vs
  is_json (dict fs) = are_json_fields fs
  is_json v = true

  pub are_json : Values → Bool
  are_json nil = true
  are_json (cons v vs) = is_json v && are_json vs

  pub are_json_fields : Fields → Bool
  are_json_fields end = true
  are_json_fields (field k v fs) = is_json v && are_json_fields fs

both : {a b : Bool} → a ≡ true → b ≡ true → (a && b) ≡ true
both p q = ground (arith, p, q)

-- The step of each constructor.
plain :
    (is_json (safe null) ≡ true)
    × ((b : Bool) → is_json (safe (bool b)) ≡ true)
    × ((n : ℤ) → is_json (safe (int n)) ≡ true)
    × ((s : String) → is_json (safe (str s)) ≡ true)
    × ((bs : List ℕ) → is_json (safe (bytes bs)) ≡ true)
unfolding is_json safe
plain = (refl, (λ b. refl), (λ n. refl), (λ s. refl), (λ bs. refl))

of_values :
    (vs : Values)
    → are_json (safe_values vs) ≡ true
    → (is_json (safe (list vs)) ≡ true) × (is_json (safe (tuple vs)) ≡ true)
unfolding is_json safe
of_values vs h = (h, h)

of_fields :
    (fs : Fields) → are_json_fields (safe_fields fs) ≡ true → is_json (safe (dict fs)) ≡ true
unfolding is_json safe
of_fields fs h = h

of_nil : (are_json (safe_values nil) ≡ true) × (are_json_fields (safe_fields end) ≡ true)
unfolding is_json safe
of_nil = (refl, refl)

of_cons :
    (v : Value) (vs : Values)
    → is_json (safe v) ≡ true
    → are_json (safe_values vs) ≡ true
    → are_json (safe_values (cons v vs)) ≡ true
unfolding is_json safe
of_cons v vs p q = both p q

of_field :
    (k : String) (v : Value) (fs : Fields)
    → is_json (safe v) ≡ true
    → are_json_fields (safe_fields fs) ≡ true
    → are_json_fields (safe_fields (field k v fs)) ≡ true
unfolding is_json safe
of_field k v fs p q = both p q

mutual
  is_json-safe : (v : Value) → is_json (safe v) ≡ true
  is_json-safe null = plain.0
  is_json-safe (bool b) = plain.1 b
  is_json-safe (int n) = plain.2 n
  is_json-safe (str s) = plain.3 s
  is_json-safe (bytes bs) = plain.4 bs
  is_json-safe (list vs) = (of_values vs (are_json-safe vs)).0
  is_json-safe (tuple vs) = (of_values vs (are_json-safe vs)).1
  is_json-safe (dict fs) = of_fields fs (are_json_fields-safe fs)

  are_json-safe : (vs : Values) → are_json (safe_values vs) ≡ true
  are_json-safe nil = of_nil.0
  are_json-safe (cons v vs) = of_cons v vs (is_json-safe v) (are_json-safe vs)

  are_json_fields-safe : (fs : Fields) → are_json_fields (safe_fields fs) ≡ true
  are_json_fields-safe end = of_nil.1
  are_json_fields-safe (field k v fs) = of_field k v fs (is_json-safe v) (are_json_fields-safe fs)

is_json-text_or_null : (o : Option String) → is_json (text_or_null o) ≡ true
unfolding is_json
is_json-text_or_null none = refl
is_json-text_or_null (some s) = refl

is_json-number_or_null : (o : Option ℕ) → is_json (number_or_null o) ≡ true
unfolding is_json
is_json-number_or_null none = refl
is_json-number_or_null (some n) = refl

are_json_fields-event_fields : (e : Event) → are_json_fields (event_fields e) ≡ true
unfolding are_json_fields event_fields
are_json_fields-event_fields e = both (is_json-text_or_null e.name) (
    both (is_json-text_or_null e.contract) (
      both (is_json-number_or_null e.tx_index)
        (both (is_json-number_or_null e.log_index) (both (are_json_fields-safe e.args) refl))))

are_json_fields-business_field :
    (o : Option String) (rest : Fields)
    → are_json_fields rest ≡ true
    → are_json_fields (business_field o rest) ≡ true
unfolding are_json_fields
are_json_fields-business_field none rest h = h
are_json_fields-business_field (some name) rest h = go (name == "")
  where
    go :
        (b : Bool)
        → are_json_fields (if b then rest else field "business_name" (str name) rest) ≡ true
    go true = h
    go false = h

-- The payload of any event and subscription, whatever values the decoders put among the arguments, has
-- values of JSON only: neither bytes nor tuples are left in it.
pub build_payload-is_json :
    (now : ℕ) (delivery_id : String) (e : Event) (sub : SnapshotSubscription) (replay : Bool)
    → are_json_fields (build_payload now delivery_id e sub replay) ≡ true
unfolding build_payload are_json_fields
build_payload-is_json now delivery_id e sub replay =
    are_json_fields-business_field sub.business_name _
      (both (are_json_fields-event_fields e) (last replay))
  where
    last : (b : Bool) → are_json_fields (if b then field "replay" (bool true) end else end) ≡ true
    last true = refl
    last false = refl
