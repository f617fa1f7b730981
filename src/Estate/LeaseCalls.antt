-- ===== src/Estate/LeaseCalls.antt =====
-- pallets/estate/src/lib.rs: the leasors of the leased estates across every call and every history.
use versus_project_metaverse.Prelude.{ℕ, List, zero, suc, ◌≡◌, refl, ok, arith, >>=-eq_ok}
use versus_project_metaverse.Primitives.{AccountId, UndeployedLandBlockId, UndeployedLandBlockType}
use versus_project_metaverse.Estate.Types.{Config, State}
use versus_project_metaverse.Estate.Lands
use versus_project_metaverse.Estate.Estates
use versus_project_metaverse.Estate.Blocks
use versus_project_metaverse.Estate.Leases
use versus_project_metaverse.Estate.Calls.{Call, dispatch, Reach, Reach-Kept}
use versus_project_metaverse.Estate.Calls
use versus_project_metaverse.Estate.Counts.{
  IsCounted, KeepsRest, mint_land-Counts, mint_lands-Counts, collect_storage_fee-ledger,
}
use versus_project_metaverse.Estate.EstateCounts.{
  mint_estate-Counts, create_estate-Counts, dissolve_estate-Counts, add_land_unit_to_estate-Counts,
  remove_land_unit_from_estate-Counts,
}
use versus_project_metaverse.Estate.CountCalls.{dispatch-IsCounted, others-IsCounted}
use versus_project_metaverse.Estate.LeaseLaws.{
  IsLeased, IsLeased-writes, accept_lease_offer-IsLeased, Ends-IsLeased, remove_expired_lease-Ends,
  cancel_lease-Ends, collect_rent-IsLeased,
}
use versus_project_metaverse.Estate.Deploy.{deploy_burns}

-- The leases are the same.
abbrev pub KeepsLeases : {c : Config} → State c → State c → Type 0
KeepsLeases s s' = (s'.estate_leases ≡ s.estate_leases) × (s'.estate_leasors ≡ s.estate_leasors)

module _ (c : Config) where
  do_burn-KeepsLeases :
      (id : UndeployedLandBlockId) (s s' : State c)
      → Blocks.do_burn_undeployed_land_block c id s ≡ ok s'
      → KeepsLeases s s'
  unfolding Blocks.do_burn_undeployed_land_block Blocks.set_total_undeployed_land_unit
  do_burn-KeepsLeases id s s' e = ground arith

  issue_blocks-KeepsLeases :
      (who : AccountId) (k n : ℕ) (type : UndeployedLandBlockType)
      (ids : List UndeployedLandBlockId) (s s' : State c)
      → Blocks.issue_blocks c who k n type s ≡ ok (ids, s')
      → KeepsLeases s s'
  unfolding Blocks.issue_blocks Blocks.issue_block Blocks.get_new_undeployed_land_block_id
      Blocks.set_total_undeployed_land_unit
  issue_blocks-KeepsLeases who zero n type ids s s' e = ground arith
  issue_blocks-KeepsLeases who (suc k) n type ids s s' e =
      let ((id, t), one, e1) = >>=-eq_ok (Blocks.issue_block c who n type s) _ e in
      let ((ids', u), rest, e2) = >>=-eq_ok (Blocks.issue_blocks c who k n type t) _ e1 in
      let first : KeepsLeases s t = ground (arith, one) in
      ground (arith, first, issue_blocks-KeepsLeases who k n type ids' t u rest, e2)

  issue-KeepsLeases :
      (o : c.Origin) (who : AccountId) (k n : ℕ) (type : UndeployedLandBlockType) (s s' : State c)
      → Blocks.issue_undeployed_land_blocks c o who k n type s ≡ ok s'
      → KeepsLeases s s'
  unfolding Blocks.issue_undeployed_land_blocks Blocks.do_issue_undeployed_land_blocks
  issue-KeepsLeases o who k n type s s' e =
      let (_, _, e0) = >>=-eq_ok (c.ensure_root o) _ e in
      let ((ids, u), done, e1) =
        >>=-eq_ok (Blocks.do_issue_undeployed_land_blocks c who k n type s) _ e0 in
      let (t, paid, e2) = >>=-eq_ok (Lands.collect_storage_fee c who _ s) _ done in
      let fee = collect_storage_fee-ledger c who _ s t paid in
      ground (arith, fee, issue_blocks-KeepsLeases who k n type ids t u e2, e1)

  -- The calls that leave the leases alone.
  keeps : (s s' : State c) → KeepsRest s s' → IsLeased s → IsLeased s'
  keeps s s' k h = IsLeased-writes c s s' k.2 k.3 h

  dispatch-IsLeased :
      (call : Call c) (s s' : State c)
      → dispatch c call s ≡ ok s'
      → IsCounted s
      → IsLeased s
      → IsLeased s'
  unfolding dispatch Lands.transfer_land Lands.do_transfer_landunit Estates.transfer_estate
      Estates.do_transfer_estate Leases.remove_lease_offer Leases.create_lease_offer
      Blocks.freeze_undeployed_land_blocks Blocks.do_freeze_undeployed_land_block
      Blocks.unfreeze_undeployed_land_blocks Blocks.transfer_undeployed_land_blocks
      Blocks.do_transfer_undeployed_land_block Blocks.approve_undeployed_land_blocks
      Blocks.unapprove_undeployed_land_blocks Blocks.set_approved Blocks.burn_undeployed_land_blocks
      Lands.collect_storage_fee
  dispatch-IsLeased (Calls.mint_land o w m p) s s' e n h =
      keeps s s' (mint_land-Counts c o w m p s s' e n).1 h
  dispatch-IsLeased (Calls.mint_lands o w m ps) s s' e n h =
      keeps s s' (mint_lands-Counts c o w m ps s s' e n).1 h
  dispatch-IsLeased (Calls.mint_estate o w m ps) s s' e n h =
      keeps s s' (mint_estate-Counts c o w m ps s s' e n).1 h
  dispatch-IsLeased (Calls.transfer_land o to m p) s s' e n h =
      IsLeased-writes c s s' (ground arith) (ground arith) h
  dispatch-IsLeased (Calls.create_estate o m ps) s s' e n h =
      keeps s s' (create_estate-Counts c o m ps s s' e n).1 h
  dispatch-IsLeased (Calls.transfer_estate o to id) s s' e n h =
      IsLeased-writes c s s' (ground arith) (ground arith) h
  dispatch-IsLeased (Calls.deploy_land_block o id m b ps) s s' e n h =
      let (v, w, counts, burnt, same) = deploy_burns c o id m b ps s s' e n in
      let kept = do_burn-KeepsLeases id v w burnt in
      IsLeased-writes c s s' (ground (arith, counts.1, kept, same))
        (ground (arith, counts.1, kept, same)) h
  dispatch-IsLeased (Calls.issue_undeployed_land_blocks o w k u type) s s' e n h =
      let kept = issue-KeepsLeases o w k u type s s' e in IsLeased-writes c s s' kept.0 kept.1 h
  dispatch-IsLeased (Calls.freeze_undeployed_land_blocks o id) s s' e n h =
      IsLeased-writes c s s' (ground arith) (ground arith) h
  dispatch-IsLeased (Calls.unfreeze_undeployed_land_blocks o id) s s' e n h =
      IsLeased-writes c s s' (ground arith) (ground arith) h
  dispatch-IsLeased (Calls.transfer_undeployed_land_blocks o to id) s s' e n h =
      IsLeased-writes c s s' (ground arith) (ground arith) h
  dispatch-IsLeased (Calls.approve_undeployed_land_blocks o to id) s s' e n h =
      IsLeased-writes c s s' (ground arith) (ground arith) h
  dispatch-IsLeased (Calls.burn_undeployed_land_blocks o id) s s' e n h =
      let kept : KeepsLeases s s' = ground (arith, do_burn-KeepsLeases id s s') in
      IsLeased-writes c s s' kept.0 kept.1 h
  dispatch-IsLeased (Calls.unapprove_undeployed_land_blocks o id) s s' e n h =
      IsLeased-writes c s s' (ground arith) (ground arith) h
  dispatch-IsLeased (Calls.dissolve_estate o id) s s' e n h =
      keeps s s' (dissolve_estate-Counts c o id s s' e n).1 h
  dispatch-IsLeased (Calls.remove_lease_offer o id) s s' e n h =
      IsLeased-writes c s s' (ground arith) (ground arith) h
  dispatch-IsLeased (Calls.add_land_unit_to_estate o id ps) s s' e n h =
      keeps s s' (add_land_unit_to_estate-Counts c o id ps s s' e n).1 h
  dispatch-IsLeased (Calls.remove_land_unit_from_estate o id ps) s s' e n h =
      keeps s s' (remove_land_unit_from_estate-Counts c o id ps s s' e n).1 h
  dispatch-IsLeased (Calls.create_lease_offer o id p d) s s' e n h =
      IsLeased-writes c s s' (ground arith) (ground arith) h
  dispatch-IsLeased (Calls.accept_lease_offer o id w) s s' e n h =
      accept_lease_offer-IsLeased c o id w s s' e h
  dispatch-IsLeased (Calls.remove_expired_lease o id w) s s' e n h =
      Ends-IsLeased c id w s s' (remove_expired_lease-Ends c o id w s s' e) h
  dispatch-IsLeased (Calls.collect_rent o id w) s s' e n h = collect_rent-IsLeased c o id w s s' e h
  dispatch-IsLeased (Calls.cancel_lease o x id w) s s' e n h =
      Ends-IsLeased c id w s s' (cancel_lease-Ends c o x id w s s' e) h

  -- After every history from a state whose counts are right: where every leased estate had one
  -- leasor, and every other estate none, it is so still.
  pub Reach-IsLeased : (s s' : State c) → Reach c s s' → IsCounted s → IsLeased s → IsLeased s'
  Reach-IsLeased s s' r n h =
      (Reach-Kept c (λ x. IsCounted x × IsLeased x)
        (λ call t u e k.
          (dispatch-IsCounted c call t u e k.0, dispatch-IsLeased call t u e k.0 k.1))
        (λ t l f m a b k. (
          others-IsCounted c t l f m a b k.0,
          IsLeased-writes c t
              (record t { ledger = l; nfts = f; metaverses = m; auctions = a; block_number = b })
              refl refl k.1,
        ))
        s s' r (n, h)).1
