-- ===== src/Config/Rows/Deliveries.antt =====
-- core/config/repositories.py: the records of deliveries, of DeliveryRecordRepo. The identifier and the time
-- of a new row come from outside.
pub mod Cleanup
mod Tests
use chain_indexer.Base.{
  ℕ, zero, suc, ◌+◌, String, Bool, true, false, not, Option, none, some, List, [], ◌∷◌, map, filter,
  contains, leb, ◌==◌, string_comparable, if◌then◌else◌,
}
use chain_indexer.Parse.Value.{Fields}
use chain_indexer.Config.Rows.{first}

pub data DeliveryStatus : Type 0 where
  retrying failed success resolved : DeliveryStatus

pub record DeliveryRecord : Type 0 where
  pub id : String
  pub subscription_id : String
  pub channel_id : String
  pub chain_id : String
  pub event_payload : Fields
  pub error : Option String
  pub attempts : ℕ
  pub status : DeliveryStatus
  pub created_at : ℕ
  pub resolved_at : Option ℕ
  pub is_replay : Bool

abbrev pub is_success : DeliveryRecord → Bool
is_success r = elim r.status [ success ↦ true | _ ↦ false ]

module _ {ℓ} {A : Type ℓ} where
  -- `limit` and `offset`
  abbrev pub take : ℕ → List A → List A
  take zero xs = []
  take (suc n) [] = []
  take (suc n) (x ∷ xs) = x ∷ take n xs

  abbrev pub drop : ℕ → List A → List A
  drop zero xs = xs
  drop (suc n) [] = []
  drop (suc n) (x ∷ xs) = drop n xs

-- `order_by(created_at.desc())`
unfoldable pub insert : DeliveryRecord → List DeliveryRecord → List DeliveryRecord
insert r [] = r ∷ []
insert r (s ∷ ss) = if leb s.created_at r.created_at then r ∷ s ∷ ss else s ∷ insert r ss

unfoldable pub newest_first : List DeliveryRecord → List DeliveryRecord
unfolding insert
newest_first [] = []
newest_first (r ∷ rs) = insert r (newest_first rs)

abbrev pub get : String → List DeliveryRecord → Option DeliveryRecord
get delivery_id rows = first (filter (λ r. r.id == delivery_id) rows)

abbrev pub delete : String → List DeliveryRecord → List DeliveryRecord
delete delivery_id rows = filter (λ r. not (r.id == delivery_id)) rows

-- `update ... where id == delivery_id`
abbrev pub update_row :
    String → (DeliveryRecord → DeliveryRecord) → List DeliveryRecord → List DeliveryRecord
update_row delivery_id f rows = map (λ r. if r.id == delivery_id then f r else r) rows

abbrev pub mark_resolved : String → ℕ → List DeliveryRecord → List DeliveryRecord
mark_resolved delivery_id now =
    update_row delivery_id (λ r. record r { status = resolved; resolved_at = some now })

abbrev pub bump_attempt : String → String → List DeliveryRecord → List DeliveryRecord
bump_attempt delivery_id error =
    update_row delivery_id (λ r. record r { attempts = r.attempts + 1; error = some error })

-- The rows of the inner query, and the delete of the rows with their ids.
unfoldable pub victims : ℕ → ℕ → List DeliveryRecord → List DeliveryRecord
unfolding newest_first
victims keep batch rows = take batch (drop keep (newest_first (filter is_success rows)))

unfoldable pub cleanup_success : ℕ → ℕ → List DeliveryRecord → List DeliveryRecord
unfolding victims
cleanup_success keep batch rows =
    filter (λ r. not (contains r.id (map (λ v. v.id) (victims keep batch rows)))) rows
