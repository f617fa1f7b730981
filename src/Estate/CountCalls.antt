-- ===== src/Estate/CountCalls.antt =====
-- pallets/estate/src/lib.rs: the counts across every call and every history.
use versus_project_metaverse.Prelude.{◌≡◌, ok, arith}
use versus_project_metaverse.Primitives.{BlockNumber}
use versus_project_metaverse.Estate.Types.{Config, State}
use versus_project_metaverse.Estate.Lands
use versus_project_metaverse.Estate.Estates
use versus_project_metaverse.Estate.Leases
use versus_project_metaverse.Estate.Calls.{Call, dispatch, Reach, Reach-Kept}
use versus_project_metaverse.Estate.Calls
use versus_project_metaverse.Estate.Counts.{IsCounted, mint_land-Counts, mint_lands-Counts}
use versus_project_metaverse.Estate.EstateCounts.{
  mint_estate-Counts, create_estate-Counts, dissolve_estate-Counts, add_land_unit_to_estate-Counts,
  remove_land_unit_from_estate-Counts,
}
use versus_project_metaverse.Estate.BlockCounts.{
  issue_undeployed_land_blocks-IsCounted, freeze_undeployed_land_blocks-IsCounted,
  unfreeze_undeployed_land_blocks-IsCounted, transfer_undeployed_land_blocks-IsCounted,
  approve_undeployed_land_blocks-IsCounted, burn_undeployed_land_blocks-IsCounted,
  unapprove_undeployed_land_blocks-IsCounted,
}
use versus_project_metaverse.Estate.Deploy.{deploy_land_block-IsCounted}

module _ (c : Config) where
  pub dispatch-IsCounted :
      (call : Call c) (s s' : State c) → dispatch c call s ≡ ok s' → IsCounted s → IsCounted s'
  unfolding dispatch Lands.transfer_land Lands.do_transfer_landunit Estates.transfer_estate
      Estates.do_transfer_estate Leases.remove_lease_offer Leases.create_lease_offer
      Leases.accept_lease_offer Leases.remove_expired_lease Leases.collect_rent Leases.cancel_lease
      Leases.end_lease Lands.collect_storage_fee
  dispatch-IsCounted (Calls.mint_land o w m p) s s' e h = (mint_land-Counts c o w m p s s' e h).0
  dispatch-IsCounted (Calls.mint_lands o w m ps) s s' e h =
      (mint_lands-Counts c o w m ps s s' e h).0
  dispatch-IsCounted (Calls.mint_estate o w m ps) s s' e h =
      (mint_estate-Counts c o w m ps s s' e h).0
  dispatch-IsCounted (Calls.transfer_land o to m p) s s' e h = ground arith
  dispatch-IsCounted (Calls.create_estate o m ps) s s' e h =
      (create_estate-Counts c o m ps s s' e h).0
  dispatch-IsCounted (Calls.transfer_estate o to id) s s' e h = ground arith
  dispatch-IsCounted (Calls.deploy_land_block o id m b ps) s s' e h =
      deploy_land_block-IsCounted c o id m b ps s s' e h
  dispatch-IsCounted (Calls.issue_undeployed_land_blocks o w k n type) s s' e h =
      issue_undeployed_land_blocks-IsCounted c o w k n type s s' e h
  dispatch-IsCounted (Calls.freeze_undeployed_land_blocks o id) s s' e h =
      freeze_undeployed_land_blocks-IsCounted c o id s s' e h
  dispatch-IsCounted (Calls.unfreeze_undeployed_land_blocks o id) s s' e h =
      unfreeze_undeployed_land_blocks-IsCounted c o id s s' e h
  dispatch-IsCounted (Calls.transfer_undeployed_land_blocks o to id) s s' e h =
      transfer_undeployed_land_blocks-IsCounted c o to id s s' e h
  dispatch-IsCounted (Calls.approve_undeployed_land_blocks o to id) s s' e h =
      approve_undeployed_land_blocks-IsCounted c o to id s s' e h
  dispatch-IsCounted (Calls.burn_undeployed_land_blocks o id) s s' e h =
      burn_undeployed_land_blocks-IsCounted c o id s s' e h
  dispatch-IsCounted (Calls.unapprove_undeployed_land_blocks o id) s s' e h =
      unapprove_undeployed_land_blocks-IsCounted c o id s s' e h
  dispatch-IsCounted (Calls.dissolve_estate o id) s s' e h =
      (dissolve_estate-Counts c o id s s' e h).0
  dispatch-IsCounted (Calls.remove_lease_offer o id) s s' e h = ground arith
  dispatch-IsCounted (Calls.add_land_unit_to_estate o id ps) s s' e h =
      (add_land_unit_to_estate-Counts c o id ps s s' e h).0
  dispatch-IsCounted (Calls.remove_land_unit_from_estate o id ps) s s' e h =
      (remove_land_unit_from_estate-Counts c o id ps s s' e h).0
  dispatch-IsCounted (Calls.create_lease_offer o id p d) s s' e h = ground arith
  dispatch-IsCounted (Calls.accept_lease_offer o id w) s s' e h = ground arith
  dispatch-IsCounted (Calls.remove_expired_lease o id w) s s' e h = ground arith
  dispatch-IsCounted (Calls.collect_rent o id w) s s' e h = ground arith
  dispatch-IsCounted (Calls.cancel_lease o x id w) s s' e h = ground arith

  pub others-IsCounted :
      (s : State c) (l : c.Ledger) (n : c.Nfts) (m : c.Metaverses) (a : c.Auctions)
      (b : BlockNumber)
      → IsCounted s
      → IsCounted
          (record s { ledger = l; nfts = n; metaverses = m; auctions = a; block_number = b })
  others-IsCounted s l n m a b h = ground arith

  -- After every history of calls that succeed, and of changes elsewhere in the runtime, the counts
  -- of the pallet are right if they were right before: `AllLandUnitsCount` is the number of land
  -- units, `AllEstatesCount` the number of estates, `TotalUndeployedLandUnit` the sum of the units
  -- of the undeployed land blocks, and the next ids are above every id in use.
  pub Reach-IsCounted : (s s' : State c) → Reach c s s' → IsCounted s → IsCounted s'
  Reach-IsCounted s s' r h =
      Reach-Kept c (λ x. IsCounted x) dispatch-IsCounted others-IsCounted s s' r h
