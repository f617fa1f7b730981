-- ===== src/Estate/Tests/Rent.antt =====
-- The theorems on the leases and the owners of estates at the states of the small runtime.
use versus_project_metaverse.Prelude.{
  ◌*◌, ◌-◌, ◌≤◌, ◌≡◌, some, [], ◌∷◌, ok, refl, false, is_ok, arith, nat_eq, pair_eq, ◌+◌,
}
use versus_project_metaverse.Prelude.Maps.{get?, insert, remove}
use versus_project_metaverse.Prelude.Lists.{length}
use versus_project_metaverse.Primitives.{AccountId, LeaseContract}
use versus_project_metaverse.Estate.Types.{State}
use versus_project_metaverse.Estate.Coordinates
use versus_project_metaverse.Estate.Lands
use versus_project_metaverse.Estate.Estates
use versus_project_metaverse.Estate.Leases
use versus_project_metaverse.Estate.Calls.{dispatch, Reach, next, here, called, elsewhere}
use versus_project_metaverse.Estate.Calls
use versus_project_metaverse.Estate.CountCalls.{Reach-IsCounted}
use versus_project_metaverse.Estate.OwnerLaws.{by_owner_lem, Holds}
use versus_project_metaverse.Estate.StrandCalls.{dissolve_estate-strands}
use versus_project_metaverse.Estate.Rent.{
  IsRunning, accept_lease_offer-IsRunning, collect_rent-IsRunning, remove_expired_lease_lem,
}
use versus_project_metaverse.Estate.Runtime.{runtime, with_estate, run, empty}
use versus_project_metaverse.Estate.Tests.{offered, leased, empty-IsCounted, leased-Reach}

abbrev offer : LeaseContract
offer = record {
  price_per_block = 7;
  duration = 20;
  end_block = 16;
  start_block = 17;
  unclaimed_rent = 140;
}

-- The lease after the blocks 10, 15 and 30: all its rent unclaimed, and 15 blocks of it.
abbrev lease : LeaseContract
lease = record offer { start_block = 10; end_block = 30 }

abbrev at_15 : State runtime
at_15 = record with_estate {
  estate_leases = (0, lease) ∷ [];
  estate_leasors = ((8, 0), tt) ∷ [];
  block_number = 15;
}

abbrev collected : State runtime
collected = run (Calls.collect_rent 5 0 8) at_15

abbrev ended : State runtime
ended = run (Calls.remove_expired_lease 5 0 8) (record at_15 { block_number = 40 })

lease-IsRunning : IsRunning lease 10
lease-IsRunning = record {
  fits = omega arith;
  ends = refl;
  in_time = omega arith;
  started = omega arith;
  until = omega arith;
  unclaimed = refl;
}

collect_rent-IsRunning_example :
    (runtime.transfer 8 5 (7 * (15 - 10)) (runtime.unreserve 8 (7 * (15 - 10)) at_15.ledger)
      ≡ ok collected.ledger)
    × ((left : LeaseContract) × (get? 0 collected.estate_leases ≡ some left) × IsRunning left 15)
unfolding dispatch Leases.collect_rent Leases.check_estate_ownership Leases.rent_claim_amount
    Leases.total_rent Estates.mint_estate Estates.mint_estate_token
    Estates.update_estate_information Lands.get_new_estate_id Lands.mint_land_units
    Lands.mint_land_unit Lands.set_total_land_unit length get? insert
    Coordinates.get_estate_token_properties Coordinates.to_be_bytes
collect_rent-IsRunning_example =
    collect_rent-IsRunning runtime (λ n. refl) 5 5 0 8 lease 10 at_15 collected refl refl
      lease-IsRunning (omega arith) refl

remove_expired_lease_lem_example :
    Holds {c = runtime} 5 0 (record at_15 { block_number = 40 })
    × (30 ≤ 40)
    × (runtime.transfer 8 5 (7 * (30 - 10)) (runtime.unreserve 8 (7 * (30 - 10)) at_15.ledger)
        ≡ ok ended.ledger)
    × (ended.estate_leases ≡ remove 0 at_15.estate_leases)
    × (ended.estate_leasors ≡ remove (8, 0) at_15.estate_leasors)
unfolding dispatch Leases.remove_expired_lease Leases.end_lease Lands.token_of
    Lands.check_if_land_or_estate_owner Estates.mint_estate Estates.mint_estate_token
    Estates.update_estate_information Lands.get_new_estate_id Lands.mint_land_units
    Lands.mint_land_unit Lands.set_total_land_unit length get? insert
    Coordinates.get_estate_token_properties Coordinates.to_be_bytes
remove_expired_lease_lem_example =
    remove_expired_lease_lem runtime (λ n. refl) 5 5 0 8 lease 10
      (record at_15 { block_number = 40 }) ended refl refl lease-IsRunning refl

accept_lease_offer-IsRunning_example :
    (l : LeaseContract) × (get? 0 leased.estate_leases ≡ some l)
    × IsRunning l 10
    × (l.price_per_block ≡ 7)
    × (l.end_block ≡ 10 + 20)
unfolding dispatch Estates.mint_estate Estates.mint_estate_token Estates.update_estate_information
    Lands.get_new_estate_id Lands.mint_land_units Lands.mint_land_unit Lands.set_total_land_unit
    Lands.check_if_land_or_estate_owner Lands.collect_storage_fee Lands.token_of
    Leases.create_lease_offer Leases.accept_lease_offer Leases.count_offers Leases.total_rent
    Leases.remove_offers length get? insert Coordinates.get_estate_token_properties
    Coordinates.to_be_bytes
accept_lease_offer-IsRunning_example =
    accept_lease_offer-IsRunning runtime (λ n. refl) 5 0 8 offer offered leased refl refl
      (omega arith) (omega arith) refl

by_owner_lem_example :
    (who : AccountId) × (runtime.ensure_signed 5 ≡ ok who) × Holds {c = runtime} who 0 offered
unfolding dispatch Estates.mint_estate Estates.mint_estate_token Estates.update_estate_information
    Lands.get_new_estate_id Lands.mint_land_units Lands.mint_land_unit Lands.set_total_land_unit
    Lands.check_if_land_or_estate_owner Lands.collect_storage_fee Lands.token_of
    Leases.create_lease_offer Leases.accept_lease_offer Leases.count_offers Leases.total_rent
    Leases.remove_offers length get? insert Coordinates.get_estate_token_properties
    Coordinates.to_be_bytes
by_owner_lem_example =
    by_owner_lem runtime (Calls.accept_lease_offer 5 0 8) 5 0 offered leased refl refl

-- Account 5 dissolves the estate while account 8 leases it.
abbrev dissolved : State runtime
dissolved = run (Calls.dissolve_estate 5 0) leased

-- After that the root mints another estate, and block 50 comes.
abbrev built : State runtime
built = record (run (Calls.mint_estate 0 6 1 ((7, 7) ∷ [])) dissolved) { block_number = 50 }

built-Reach : Reach runtime dissolved built
unfolding dispatch Estates.mint_estate Estates.mint_estate_token Estates.update_estate_information
    Lands.get_new_estate_id Lands.mint_land_units Lands.mint_land_unit Lands.set_total_land_unit
    Lands.check_if_land_or_estate_owner Lands.collect_storage_fee Lands.token_of
    Leases.create_lease_offer Leases.accept_lease_offer Leases.count_offers Leases.total_rent
    Leases.remove_offers length get? insert Coordinates.get_estate_token_properties
    Coordinates.to_be_bytes Estates.dissolve_estate Estates.owned_estate Lands.mint_land_token
    Coordinates.get_land_token_properties Coordinates.i32_to_be_bytes remove
built-Reach =
    next (next here (called (Calls.mint_estate 0 6 1 ((7, 7) ∷ [])) refl))
      (elsewhere built.ledger built.nfts built.metaverses built.auctions 50)

dissolve_estate-strands_example :
    (get? 0 built.estate_leases ≡ get? 0 leased.estate_leases)
    × (is_ok (Leases.cancel_lease runtime 0 5 0 8 built) ≡ false)
    × (is_ok (Leases.remove_expired_lease runtime 0 0 8 built) ≡ false)
    × (is_ok (Leases.collect_rent runtime 0 0 8 built) ≡ false)
unfolding dispatch Estates.mint_estate Estates.mint_estate_token Estates.update_estate_information
    Lands.get_new_estate_id Lands.mint_land_units Lands.mint_land_unit Lands.set_total_land_unit
    Lands.check_if_land_or_estate_owner Lands.collect_storage_fee Lands.token_of
    Leases.create_lease_offer Leases.accept_lease_offer Leases.count_offers Leases.total_rent
    Leases.remove_offers length get? insert Coordinates.get_estate_token_properties
    Coordinates.to_be_bytes Estates.dissolve_estate Estates.owned_estate Lands.mint_land_token
    Coordinates.get_land_token_properties Coordinates.i32_to_be_bytes remove
dissolve_estate-strands_example =
    dissolve_estate-strands runtime 5 0 0 5 8 leased dissolved built
      (Reach-IsCounted runtime empty leased leased-Reach empty-IsCounted) (refl, tt) refl
      built-Reach
