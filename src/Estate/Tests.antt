-- ===== src/Estate/Tests.antt =====
-- The theorems on pallets/estate at concrete states of the small runtime.
use versus_project_metaverse.Prelude.{
  ℕ, ◌+◌, ◌*◌, ◌-◌, ◌^◌, ◌≤◌, ◌<◌, ◌≡◌, true, false, not, ◌&&◌, none, some, [], ◌∷◌, ok, err,
  bad_origin, refl, ◌==◌, if◌then◌else◌, arith, nat_eq, pair_eq, value_or, is_ok, u64_max, u128_max,
}
use versus_project_metaverse.Prelude.Maps.{get?, insert, remove}
use versus_project_metaverse.Prelude.Totals.{total}
use versus_project_metaverse.Prelude.Lists.{
  length, map, all, sort, insert_sorted, dedup, dedup_after,
}
use versus_project_metaverse.Primitives.{
  AccountId, Coordinate, LeaseContract, token, transferable, is_transferable, account,
}
use versus_project_metaverse.Estate.Types.{Config, State}
use versus_project_metaverse.Estate.Types
use versus_project_metaverse.Estate.Coordinates
use versus_project_metaverse.Estate.CoordinateLaws.{
  verify_land_unit_for_estate_lem, verify_land_unit_in_bound_lem,
  verify_land_unit_in_bound-disjoint, spans,
}
use versus_project_metaverse.Estate.Metadata.{get_token_properties-injective}
use versus_project_metaverse.Estate.Lands
use versus_project_metaverse.Estate.Estates
use versus_project_metaverse.Estate.Blocks
use versus_project_metaverse.Estate.Leases
use versus_project_metaverse.Estate.Calls.{dispatch, Reach, here, next, called}
use versus_project_metaverse.Estate.Calls
use versus_project_metaverse.Estate.Counts.{IsCounted}
use versus_project_metaverse.Estate.CountCalls.{Reach-IsCounted}
use versus_project_metaverse.Estate.BlockOwners.{IsIndexed}
use versus_project_metaverse.Estate.OwnerCalls.{Reach-IsIndexed}
use versus_project_metaverse.Estate.LeaseLaws.{IsLeased}
use versus_project_metaverse.Estate.LeaseCalls.{Reach-IsLeased}
use versus_project_metaverse.Estate.Issue.{ids_from, AllIssued, do_issue_undeployed_land_blocks_lem}
use versus_project_metaverse.Estate.Runtime.{
  runtime, empty, run, origin_unit, next_unit, with_estate,
}
mod Rent

-- Account 8 offers 7 per block for 20 blocks, and account 5 accepts.
abbrev pub offered : State runtime
offered = run (Calls.create_lease_offer 8 0 7 20) with_estate

abbrev pub leased : State runtime
leased = run (Calls.accept_lease_offer 5 0 8) offered

with_estate_counts : (with_estate.all_land_units_count ≡ 2) × (with_estate.all_estates_count ≡ 1)
unfolding dispatch Estates.mint_estate Estates.mint_estate_token Estates.update_estate_information
    Lands.get_new_estate_id Lands.mint_land_units Lands.mint_land_unit Lands.set_total_land_unit
    length get? insert Coordinates.get_estate_token_properties Coordinates.to_be_bytes
with_estate_counts = (refl, refl)

pub empty-IsCounted : IsCounted empty
unfolding total
empty-IsCounted = record {
  units = refl;
  distinct = tt;
  estates = refl;
  estate_ids = tt;
  blocks = refl;
  block_ids = tt;
}

empty-IsIndexed : IsIndexed empty
unfolding get?
empty-IsIndexed = record { owners = λ w i. refl; distinct = tt; distinct_owners = tt }

empty-IsLeased : IsLeased empty
unfolding get? total
empty-IsLeased = record { leasors = λ i. refl; distinct = tt }

pub leased-Reach : Reach runtime empty leased
unfolding dispatch Estates.mint_estate Estates.mint_estate_token Estates.update_estate_information
    Lands.get_new_estate_id Lands.mint_land_units Lands.mint_land_unit Lands.set_total_land_unit
    Lands.check_if_land_or_estate_owner Lands.collect_storage_fee Lands.token_of
    Leases.create_lease_offer Leases.accept_lease_offer Leases.count_offers Leases.total_rent
    Leases.remove_offers length get? insert Coordinates.get_estate_token_properties
    Coordinates.to_be_bytes
leased-Reach =
    next
      (next (next here (called (Calls.mint_estate 0 5 1 (origin_unit ∷ next_unit ∷ [])) refl))
        (called (Calls.create_lease_offer 8 0 7 20) refl))
      (called (Calls.accept_lease_offer 5 0 8) refl)

Reach-IsCounted_example : IsCounted leased
Reach-IsCounted_example = Reach-IsCounted runtime empty leased leased-Reach empty-IsCounted

Reach-IsLeased_example : IsLeased leased
Reach-IsLeased_example =
    Reach-IsLeased runtime empty leased leased-Reach empty-IsCounted empty-IsLeased

-- The root issues two blocks of 3 units to account 5, who gives the first to account 6.
abbrev issued : State runtime
issued = run (Calls.issue_undeployed_land_blocks 0 5 2 3 transferable) empty

abbrev moved : State runtime
moved = run (Calls.transfer_undeployed_land_blocks 5 6 0) issued

moved-Reach : Reach runtime empty moved
unfolding dispatch Blocks.issue_undeployed_land_blocks Blocks.do_issue_undeployed_land_blocks
    Blocks.issue_blocks Blocks.issue_block Blocks.get_new_undeployed_land_block_id
    Blocks.set_total_undeployed_land_unit Blocks.transfer_undeployed_land_blocks
    Blocks.do_transfer_undeployed_land_block Lands.collect_storage_fee is_transferable get? insert
    remove
moved-Reach =
    next (next here (called (Calls.issue_undeployed_land_blocks 0 5 2 3 transferable) refl))
      (called (Calls.transfer_undeployed_land_blocks 5 6 0) refl)

Reach-IsIndexed_example : IsIndexed moved
Reach-IsIndexed_example =
    Reach-IsIndexed runtime empty moved moved-Reach empty-IsCounted empty-IsIndexed

do_issue_undeployed_land_blocks_lem_example :
    (s' : State runtime) × (Blocks.do_issue_undeployed_land_blocks runtime 5 2 3 transferable empty
      ≡ ok (ids_from 2 0, s'))
    × (s'.next_undeployed_land_block_id ≡ 0 + 2)
    × (s'.total_undeployed_land_unit ≡ 0 + 2 * 3)
    × AllIssued runtime 5 3 transferable (ids_from 2 0) s'
unfolding Lands.collect_storage_fee
do_issue_undeployed_land_blocks_lem_example =
    do_issue_undeployed_land_blocks_lem runtime 5 2 3 transferable empty
      (record empty { ledger = 1 }) refl (omega arith) (omega arith)

verify_land_unit_for_estate_lem_example :
    Coordinates.verify_land_unit_for_estate ((0, 0) ∷ (900, 70) ∷ []) ≡ ok true
unfolding length
verify_land_unit_for_estate_lem_example = verify_land_unit_for_estate_lem ((0, 0) ∷ (900, 70) ∷ [])

verify_land_unit_in_bound_lem_example :
    Coordinates.verify_land_unit_in_bound (2 ^ 31, 2 ^ 31) (origin_unit ∷ next_unit ∷ []) ≡ (
      not (length (origin_unit ∷ next_unit ∷ []) == 0)
      && all (λ p. spans (2 ^ 31) p.0 && spans (2 ^ 31) p.1) (origin_unit ∷ next_unit ∷ []))
verify_land_unit_in_bound_lem_example =
    verify_land_unit_in_bound_lem (2 ^ 31) (2 ^ 31) (origin_unit ∷ next_unit ∷ [])
      (omega arith, omega arith) (omega arith, omega arith)
