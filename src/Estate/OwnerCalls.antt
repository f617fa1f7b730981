-- ===== src/Estate/OwnerCalls.antt =====
-- pallets/estate/src/lib.rs: the owners of undeployed land blocks across every call and every
-- history.
use versus_project_metaverse.Prelude.{
  ◌≡◌, true, false, Option, none, some, refl, ok, arith, >>=-eq_ok, inl, inr, Option-cases, nat_eq,
}
use versus_project_metaverse.Prelude.Maps.{get?}
use versus_project_metaverse.Primitives.{AccountId, UndeployedLandBlockId}
use versus_project_metaverse.Estate.Types.{Config, State}
use versus_project_metaverse.Estate.Lands
use versus_project_metaverse.Estate.Estates
use versus_project_metaverse.Estate.Blocks
use versus_project_metaverse.Estate.Leases
use versus_project_metaverse.Estate.Calls.{Call, dispatch, Reach, Reach-Kept}
use versus_project_metaverse.Estate.Calls
use versus_project_metaverse.Estate.Counts.{
  IsCounted, KeepsRest, mint_land-Counts, mint_lands-Counts,
}
use versus_project_metaverse.Estate.EstateCounts.{
  mint_estate-Counts, create_estate-Counts, dissolve_estate-Counts, add_land_unit_to_estate-Counts,
  remove_land_unit_from_estate-Counts,
}
use versus_project_metaverse.Estate.Deploy.{deploy_burns}
use versus_project_metaverse.Estate.CountCalls.{dispatch-IsCounted, others-IsCounted}
use versus_project_metaverse.Estate.BlockOwners.{
  IsIndexed, IsIndexed-writes, rewrite-IsIndexed, issue_undeployed_land_blocks-IsIndexed,
  do_burn-IsIndexed, transfer_undeployed_land_blocks-IsIndexed,
}

module _ (c : Config) where
  keeps : (s s' : State c) → KeepsRest s s' → IsIndexed s → IsIndexed s'
  keeps s s' k h = IsIndexed-writes c s s' k.0 k.1 h

  freeze-IsIndexed :
      (o : c.Origin) (id : UndeployedLandBlockId) (s s' : State c)
      → Blocks.freeze_undeployed_land_blocks c o id s ≡ ok s'
      → IsIndexed s
      → IsIndexed s'
  unfolding Blocks.freeze_undeployed_land_blocks Blocks.do_freeze_undeployed_land_block
  freeze-IsIndexed o id s s' e h = elim (Option-cases (get? id s.undeployed_land_blocks)) [
    | inl missing ↦ absurd (ground (arith, missing))
    | inr (b, found) ↦
        rewrite-IsIndexed c id b (record b { is_locked = true }) s s' found refl
          (ground (arith, found)) (ground (arith, found)) h
  ]

  unfreeze-IsIndexed :
      (o : c.Origin) (id : UndeployedLandBlockId) (s s' : State c)
      → Blocks.unfreeze_undeployed_land_blocks c o id s ≡ ok s'
      → IsIndexed s
      → IsIndexed s'
  unfolding Blocks.unfreeze_undeployed_land_blocks
  unfreeze-IsIndexed o id s s' e h = elim (Option-cases (get? id s.undeployed_land_blocks)) [
    | inl missing ↦ absurd (ground (arith, missing))
    | inr (b, found) ↦
        rewrite-IsIndexed c id b (record b { is_locked = false }) s s' found refl
          (ground (arith, found)) (ground (arith, found)) h
  ]

  set_approved-IsIndexed :
      (who : AccountId) (a : Option AccountId) (id : UndeployedLandBlockId) (s s' : State c)
      → Blocks.set_approved c who a id s ≡ ok s'
      → IsIndexed s
      → IsIndexed s'
  unfolding Blocks.set_approved
  set_approved-IsIndexed who a id s s' e h =
      elim (Option-cases (get? id s.undeployed_land_blocks)) [
        | inl missing ↦ absurd (ground (arith, missing))
        | inr (b, found) ↦
            rewrite-IsIndexed c id b (record b { approved = a }) s s' found refl
              (ground (arith, found)) (ground (arith, found)) h
      ]

  approve-IsIndexed :
      (o : c.Origin) (to : AccountId) (id : UndeployedLandBlockId) (s s' : State c)
      → Blocks.approve_undeployed_land_blocks c o to id s ≡ ok s'
      → IsIndexed s
      → IsIndexed s'
  unfolding Blocks.approve_undeployed_land_blocks
  approve-IsIndexed o to id s s' e h =
      let (who, _, e0) = >>=-eq_ok (c.ensure_signed o) _ e in
      let (t, set, e1) = >>=-eq_ok (Blocks.set_approved c who (some to) id s) _ e0 in
      IsIndexed-writes c t s' (ground (arith, e1)) (ground (arith, e1))
        (set_approved-IsIndexed who (some to) id s t set h)

  unapprove-IsIndexed :
      (o : c.Origin) (id : UndeployedLandBlockId) (s s' : State c)
      → Blocks.unapprove_undeployed_land_blocks c o id s ≡ ok s'
      → IsIndexed s
      → IsIndexed s'
  unfolding Blocks.unapprove_undeployed_land_blocks
  unapprove-IsIndexed o id s s' e h =
      let (who, _, e0) = >>=-eq_ok (c.ensure_signed o) _ e in
      let (t, set, e1) = >>=-eq_ok (Blocks.set_approved c who none id s) _ e0 in
      IsIndexed-writes c t s' (ground (arith, e1)) (ground (arith, e1))
        (set_approved-IsIndexed who none id s t set h)

  burn-IsIndexed :
      (o : c.Origin) (id : UndeployedLandBlockId) (s s' : State c)
      → Blocks.burn_undeployed_land_blocks c o id s ≡ ok s'
      → IsIndexed s
      → IsIndexed s'
  unfolding Blocks.burn_undeployed_land_blocks
  burn-IsIndexed o id s s' e h =
      let (_, _, e0) = >>=-eq_ok (c.ensure_root o) _ e in do_burn-IsIndexed c id s s' e0 h

  dispatch-IsIndexed :
      (call : Call c) (s s' : State c)
      → dispatch c call s ≡ ok s'
      → IsCounted s
      → IsIndexed s
      → IsIndexed s'
  unfolding dispatch Lands.transfer_land Lands.do_transfer_landunit Estates.transfer_estate
      Estates.do_transfer_estate Leases.remove_lease_offer Leases.create_lease_offer
      Leases.accept_lease_offer Leases.remove_expired_lease Leases.collect_rent Leases.cancel_lease
      Leases.end_lease Lands.collect_storage_fee
  dispatch-IsIndexed (Calls.mint_land o w m p) s s' e n h =
      keeps s s' (mint_land-Counts c o w m p s s' e n).1 h
  dispatch-IsIndexed (Calls.mint_lands o w m ps) s s' e n h =
      keeps s s' (mint_lands-Counts c o w m ps s s' e n).1 h
  dispatch-IsIndexed (Calls.mint_estate o w m ps) s s' e n h =
      keeps s s' (mint_estate-Counts c o w m ps s s' e n).1 h
  dispatch-IsIndexed (Calls.transfer_land o to m p) s s' e n h =
      IsIndexed-writes c s s' (ground arith) (ground arith) h
  dispatch-IsIndexed (Calls.create_estate o m ps) s s' e n h =
      keeps s s' (create_estate-Counts c o m ps s s' e n).1 h
  dispatch-IsIndexed (Calls.transfer_estate o to id) s s' e n h =
      IsIndexed-writes c s s' (ground arith) (ground arith) h
  dispatch-IsIndexed (Calls.deploy_land_block o id m b ps) s s' e n h =
      let (v, w, counts, burnt, same) = deploy_burns c o id m b ps s s' e n in
      IsIndexed-writes c w s' (ground (arith, same)) (ground (arith, same))
        (do_burn-IsIndexed c id v w burnt (keeps s v counts.1 h))
  dispatch-IsIndexed (Calls.issue_undeployed_land_blocks o w k u type) s s' e n h =
      issue_undeployed_land_blocks-IsIndexed c o w k u type s s' e n h
  dispatch-IsIndexed (Calls.freeze_undeployed_land_blocks o id) s s' e n h =
      freeze-IsIndexed o id s s' e h
  dispatch-IsIndexed (Calls.unfreeze_undeployed_land_blocks o id) s s' e n h =
      unfreeze-IsIndexed o id s s' e h
  dispatch-IsIndexed (Calls.transfer_undeployed_land_blocks o to id) s s' e n h =
      transfer_undeployed_land_blocks-IsIndexed c o to id s s' e h
  dispatch-IsIndexed (Calls.approve_undeployed_land_blocks o to id) s s' e n h =
      approve-IsIndexed o to id s s' e h
  dispatch-IsIndexed (Calls.burn_undeployed_land_blocks o id) s s' e n h =
      burn-IsIndexed o id s s' e h
  dispatch-IsIndexed (Calls.unapprove_undeployed_land_blocks o id) s s' e n h =
      unapprove-IsIndexed o id s s' e h
  dispatch-IsIndexed (Calls.dissolve_estate o id) s s' e n h =
      keeps s s' (dissolve_estate-Counts c o id s s' e n).1 h
  dispatch-IsIndexed (Calls.remove_lease_offer o id) s s' e n h =
      IsIndexed-writes c s s' (ground arith) (ground arith) h
  dispatch-IsIndexed (Calls.add_land_unit_to_estate o id ps) s s' e n h =
      keeps s s' (add_land_unit_to_estate-Counts c o id ps s s' e n).1 h
  dispatch-IsIndexed (Calls.remove_land_unit_from_estate o id ps) s s' e n h =
      keeps s s' (remove_land_unit_from_estate-Counts c o id ps s s' e n).1 h
  dispatch-IsIndexed (Calls.create_lease_offer o id p d) s s' e n h =
      IsIndexed-writes c s s' (ground arith) (ground arith) h
  dispatch-IsIndexed (Calls.accept_lease_offer o id w) s s' e n h =
      IsIndexed-writes c s s' (ground arith) (ground arith) h
  dispatch-IsIndexed (Calls.remove_expired_lease o id w) s s' e n h =
      IsIndexed-writes c s s' (ground arith) (ground arith) h
  dispatch-IsIndexed (Calls.collect_rent o id w) s s' e n h =
      IsIndexed-writes c s s' (ground arith) (ground arith) h
  dispatch-IsIndexed (Calls.cancel_lease o x id w) s s' e n h =
      IsIndexed-writes c s s' (ground arith) (ground arith) h

  -- After every history from a state whose counts are right: where an account had an entry in
  -- `UndeployedLandBlocksOwner` for a block exactly when it owned the block, it is so still.
  pub Reach-IsIndexed : (s s' : State c) → Reach c s s' → IsCounted s → IsIndexed s → IsIndexed s'
  Reach-IsIndexed s s' r n h =
      (Reach-Kept c (λ x. IsCounted x × IsIndexed x)
        (λ call t u e k.
          (dispatch-IsCounted c call t u e k.0, dispatch-IsIndexed call t u e k.0 k.1))
        (λ t l f m a b k. (
          others-IsCounted c t l f m a b k.0,
          IsIndexed-writes c t
              (record t { ledger = l; nfts = f; metaverses = m; auctions = a; block_number = b })
              refl refl k.1,
        ))
        s s' r (n, h)).1
