-- ===== src/Run/Catchup/Bounds/Tests.antt =====
-- A catch-up from a checkpoint at block 50 with a subscription from block 20 on.
use chain_indexer.Base.{◌-◌, ◌≡◌, refl, true, none, some, [], ◌∷◌, here, inr}
use chain_indexer.Parse.Value.{end}
use chain_indexer.Config.Snapshot.{SnapshotSubscription, native_transfer}
use chain_indexer.Run.Catchup.{sub_starts, minimum, bounds, catchup_bounds}
use chain_indexer.Run.Catchup.Bounds.{Resumes, catchup_bounds-Resumes}

abbrev late : SnapshotSubscription
late = record {
  id = "late";
  name = "late";
  chain_id = "eth";
  address = none;
  abi_id = none;
  match_kind = native_transfer;
  match_name = none;
  arg_filters = end;
  enabled = true;
  channel_ids = [];
  start_block = some 20;
  business_name = none;
}

late_bounds : catchup_bounds "eth" (late ∷ []) (some 50) (some 100) 12 ≡ some (21, 88)
unfolding catchup_bounds sub_starts minimum bounds
late_bounds = refl

catchup_bounds-Resumes_example : Resumes 20 (100 - 12) (21, 88)
catchup_bounds-Resumes_example =
    catchup_bounds-Resumes "eth" (late ∷ []) (some 50) 100 12 20 (21, 88)
      (inr (late, here, refl, refl, refl)) late_bounds
