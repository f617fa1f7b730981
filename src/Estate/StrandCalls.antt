-- ===== src/Estate/StrandCalls.antt =====
-- pallets/estate/src/lib.rs: what is left of a lease when the estate is dissolved, across every call
-- and every history.
use versus_project_metaverse.Prelude.{
  Option, Option-cases, arith, false, inl, inr, is_ok, nat_eq, ok, pair_eq, ◌%◌, ◌+◌, ◌-◌, ◌^◌, ◌≡◌,
}
use versus_project_metaverse.Prelude.Maps.{
  Distinct, get?, get?-insert, get?-remove_ne, get?-remove_self,
}
use versus_project_metaverse.Primitives.{AccountId, EstateId, LeaseContract}
use versus_project_metaverse.Estate.Types.{Config, State}
use versus_project_metaverse.Estate.Lands
use versus_project_metaverse.Estate.Estates
use versus_project_metaverse.Estate.Blocks
use versus_project_metaverse.Estate.Counts.{IsCounted}
use versus_project_metaverse.Estate.Leases
use versus_project_metaverse.Estate.Calls.{Call, Reach, Reach-Kept, dispatch}
use versus_project_metaverse.Estate.Calls
use versus_project_metaverse.Estate.EstateCounts.{dissolve_estate-Counts}
use versus_project_metaverse.Estate.CountCalls.{dispatch-IsCounted, others-IsCounted}
use versus_project_metaverse.Estate.OwnerLaws.{no_lease_calls}
use versus_project_metaverse.Estate.Strands.{
  IsStranded, KeepsOwners, deploy-KeepsOwners, do_burn-KeepsOwners, issue-KeepsOwners,
  mint_land-KeepsOwners, mint_lands-KeepsOwners,
}
use versus_project_metaverse.Estate.StrandEstates.{
  add_land_unit_to_estate-KeepsOwners, create_estate-IsStranded, dissolve_estate-IsStranded,
  dissolve_estate_writes, mint_estate-IsStranded, remove_land_unit_from_estate-KeepsOwners,
}

module _ (c : Config) where
  accept_lease_offer-IsStranded :
      (o : c.Origin) (x : EstateId) (w : AccountId) (j : EstateId) (lease : Option LeaseContract)
      (s s' : State c)
      → Leases.accept_lease_offer c o x w s ≡ ok s'
      → IsStranded j lease s
      → IsStranded j lease s'
  unfolding Leases.accept_lease_offer Lands.collect_storage_fee
  accept_lease_offer-IsStranded o x w j lease s s' e h =
      elim (Option-cases (get? (x, w) s.estate_lease_offers)) [
        | inl missing ↦ absurd (ground (arith, missing))
        | inr (offer, found) ↦
            let l : LeaseContract = record offer {
              start_block = s.block_number;
              end_block = (s.block_number + offer.duration) % 2 ^ 32;
            } in
            ground (arith, found, get?-insert j x l s.estate_leases)
      ]

  remove_expired_lease-IsStranded :
      (o : c.Origin) (x : EstateId) (w : AccountId) (j : EstateId) (lease : Option LeaseContract)
      (s s' : State c)
      → Leases.remove_expired_lease c o x w s ≡ ok s'
      → IsStranded j lease s
      → IsStranded j lease s'
  unfolding Leases.remove_expired_lease Leases.end_lease
  remove_expired_lease-IsStranded o x w j lease s s' e h =
      ground (arith, get?-remove_ne j x s.estate_leases)

  cancel_lease-IsStranded :
      (o : c.Origin) (a : AccountId) (x : EstateId) (w : AccountId) (j : EstateId)
      (lease : Option LeaseContract) (s s' : State c)
      → Leases.cancel_lease c o a x w s ≡ ok s'
      → IsStranded j lease s
      → IsStranded j lease s'
  unfolding Leases.cancel_lease Leases.end_lease
  cancel_lease-IsStranded o a x w j lease s s' e h =
      ground (arith, get?-remove_ne j x s.estate_leases)

  collect_rent-IsStranded :
      (o : c.Origin) (x : EstateId) (w : AccountId) (j : EstateId) (lease : Option LeaseContract)
      (s s' : State c)
      → Leases.collect_rent c o x w s ≡ ok s'
      → IsStranded j lease s
      → IsStranded j lease s'
  unfolding Leases.collect_rent Leases.check_estate_ownership
  collect_rent-IsStranded o x w j lease s s' e h = elim (Option-cases (get? x s.estate_leases)) [
    | inl missing ↦ absurd (ground (arith, missing))
    | inr (l, found) ↦
        let amount = Leases.rent_claim_amount c l s.block_number in
        let left : LeaseContract = record l {
          unclaimed_rent = (l.unclaimed_rent + 2 ^ 128 - amount) % 2 ^ 128;
        } in
        ground (arith, found, get?-insert j x left s.estate_leases)
  ]

  same-IsStranded :
      (j : EstateId) (lease : Option LeaseContract) (s s' : State c)
      → KeepsOwners s s'
      → IsStranded j lease s
      → IsStranded j lease s'
  same-IsStranded j lease s s' kept h = ground (arith, kept.0, kept.1, kept.2)

  dispatch-IsStranded :
      (call : Call c) (j : EstateId) (lease : Option LeaseContract) (s s' : State c)
      → dispatch c call s ≡ ok s'
      → IsCounted s
      → IsStranded j lease s
      → IsStranded j lease s'
  unfolding dispatch Lands.transfer_land Lands.do_transfer_landunit Estates.transfer_estate
      Estates.do_transfer_estate Leases.remove_lease_offer Leases.create_lease_offer
      Blocks.freeze_undeployed_land_blocks Blocks.do_freeze_undeployed_land_block
      Blocks.unfreeze_undeployed_land_blocks Blocks.transfer_undeployed_land_blocks
      Blocks.do_transfer_undeployed_land_block Blocks.approve_undeployed_land_blocks
      Blocks.unapprove_undeployed_land_blocks Blocks.set_approved Blocks.burn_undeployed_land_blocks
      Lands.collect_storage_fee
  dispatch-IsStranded (Calls.mint_land o w m p) j l s s' e n h =
      same-IsStranded j l s s' (mint_land-KeepsOwners c o w m p s s' e n) h
  dispatch-IsStranded (Calls.mint_lands o w m ps) j l s s' e n h =
      same-IsStranded j l s s' (mint_lands-KeepsOwners c o w m ps s s' e n) h
  dispatch-IsStranded (Calls.mint_estate o w m ps) j l s s' e n h =
      mint_estate-IsStranded c o w m ps j l s s' e n h
  dispatch-IsStranded (Calls.create_estate o m ps) j l s s' e n h =
      create_estate-IsStranded c o m ps j l s s' e n h
  dispatch-IsStranded (Calls.deploy_land_block o id m b ps) j l s s' e n h =
      same-IsStranded j l s s' (deploy-KeepsOwners c o id m b ps s s' e n) h
  dispatch-IsStranded (Calls.issue_undeployed_land_blocks o w k u type) j l s s' e n h =
      same-IsStranded j l s s' (issue-KeepsOwners c o w k u type s s' e) h
  dispatch-IsStranded (Calls.burn_undeployed_land_blocks o id) j l s s' e n h =
      ground (arith, do_burn-KeepsOwners c id s s')
  dispatch-IsStranded (Calls.dissolve_estate o id) j l s s' e n h =
      dissolve_estate-IsStranded c o id j l s s' e n h
  dispatch-IsStranded (Calls.add_land_unit_to_estate o id ps) j l s s' e n h =
      same-IsStranded j l s s' (add_land_unit_to_estate-KeepsOwners c o id ps s s' e n) h
  dispatch-IsStranded (Calls.remove_land_unit_from_estate o id ps) j l s s' e n h =
      same-IsStranded j l s s' (remove_land_unit_from_estate-KeepsOwners c o id ps s s' e n) h
  dispatch-IsStranded (Calls.accept_lease_offer o id w) j l s s' e n h =
      accept_lease_offer-IsStranded o id w j l s s' e h
  dispatch-IsStranded (Calls.remove_expired_lease o id w) j l s s' e n h =
      remove_expired_lease-IsStranded o id w j l s s' e h
  dispatch-IsStranded (Calls.collect_rent o id w) j l s s' e n h =
      collect_rent-IsStranded o id w j l s s' e h
  dispatch-IsStranded (Calls.cancel_lease o x id w) j l s s' e n h =
      cancel_lease-IsStranded o x id w j l s s' e h
  dispatch-IsStranded (Calls.transfer_land o to m p) j l s s' e n h = ground arith
  dispatch-IsStranded (Calls.transfer_estate o to id) j l s s' e n h = ground arith
  dispatch-IsStranded (Calls.freeze_undeployed_land_blocks o id) j l s s' e n h = ground arith
  dispatch-IsStranded (Calls.unfreeze_undeployed_land_blocks o id) j l s s' e n h = ground arith
  dispatch-IsStranded (Calls.transfer_undeployed_land_blocks o to id) j l s s' e n h = ground arith
  dispatch-IsStranded (Calls.approve_undeployed_land_blocks o to id) j l s s' e n h = ground arith
  dispatch-IsStranded (Calls.unapprove_undeployed_land_blocks o id) j l s s' e n h = ground arith
  dispatch-IsStranded (Calls.remove_lease_offer o id) j l s s' e n h = ground arith
  dispatch-IsStranded (Calls.create_lease_offer o id p d) j l s s' e n h = ground arith

  Reach-IsStranded :
      (j : EstateId) (lease : Option LeaseContract) (s s' : State c)
      → Reach c s s'
      → IsCounted s
      → IsStranded j lease s
      → IsStranded j lease s'
  Reach-IsStranded j lease s s' r n h =
      (Reach-Kept c (λ x. IsCounted x × IsStranded j lease x)
        (λ call t u e k.
          (dispatch-IsCounted c call t u e k.0, dispatch-IsStranded call j lease t u e k.0 k.1))
        (λ t l f m a b k. (others-IsCounted c t l f m a b k.0, k.1)) s s' r (n, h)).1

  -- Where the counts are those of `IsCounted` and no estate has two owners listed, dissolving an
  -- estate strands its lease: after every history from there on, of calls that succeed and of changes
  -- elsewhere in the runtime, the lease is what it was before the estate was dissolved, and every call
  -- of `cancel_lease`, `remove_expired_lease` or `collect_rent` for the estate fails.
  pub dissolve_estate-strands :
      (o p : c.Origin) (id : EstateId) (owner leasor : AccountId) (s s' t : State c)
      → IsCounted s
      → Distinct s.estate_owner
      → Estates.dissolve_estate c o id s ≡ ok s'
      → Reach c s' t
      → (get? id t.estate_leases ≡ get? id s.estate_leases)
        × (is_ok (Leases.cancel_lease c p owner id leasor t) ≡ false)
        × (is_ok (Leases.remove_expired_lease c p id leasor t) ≡ false)
        × (is_ok (Leases.collect_rent c p id leasor t) ≡ false)
  dissolve_estate-strands o p id owner leasor s s' t h d e r =
      let (old, owners, next, leases) = dissolve_estate_writes c o id s s' e h in
      let start : IsStranded {c = c} id (get? id s.estate_leases) s' =
        ground (arith, owners, next, leases, old, get?-remove_self id s.estate_owner d) in
      let counted = (dissolve_estate-Counts c o id s s' e h).0 in
      let stranded = Reach-IsStranded id (get? id s.estate_leases) s' t r counted start in
      let (x, y, z) = no_lease_calls c p owner leasor id t stranded.0 in (stranded.2, x, y, z)
