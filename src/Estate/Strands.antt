-- ===== src/Estate/Strands.antt =====
-- pallets/estate/src/lib.rs: what leaves the owners and the leases of the estates alone.
use versus_project_metaverse.Prelude.{
  >>=-eq_ok, List, Option, Outcome-cases, arith, false, inl, inr, nat_eq, none, ok, pair_eq, suc,
  zero, ℕ, ◌<◌, ◌≡◌,
}
use versus_project_metaverse.Prelude.Maps.{get?}
use versus_project_metaverse.Prelude.Lists.{length}
use versus_project_metaverse.Primitives.{
  AccountId, Coordinate, EstateId, LeaseContract, MetaverseId, UndeployedLandBlockId,
  UndeployedLandBlockType, account, non_existing,
}
use versus_project_metaverse.Estate.Types.{Config, State}
use versus_project_metaverse.Estate.Lands.{mint_land_unit, mint_land_units}
use versus_project_metaverse.Estate.Lands
use versus_project_metaverse.Estate.Blocks
use versus_project_metaverse.Estate.Frames.{mint_land_unit-Adds, mint_land_units-Adds}
use versus_project_metaverse.Estate.Counts.{
  IsCounted, collect_network_fee-ledger, collect_storage_fee-ledger,
}
use versus_project_metaverse.Estate.Deploy.{deploy_tail}

-- Neither the owners of the estates, nor the next id, nor the leases differ.
abbrev pub KeepsOwners : {c : Config} → State c → State c → Type 0
KeepsOwners s s' =
    (s'.estate_owner ≡ s.estate_owner)
    × (s'.next_estate_id ≡ s.next_estate_id)
    × (s'.estate_leases ≡ s.estate_leases)

-- An estate has no owner, its id is not given out again, and this is its lease.
abbrev pub IsStranded : {c : Config} → EstateId → Option LeaseContract → State c → Type 0
IsStranded id lease s =
    (get? id s.estate_owner ≡ none) × (id < s.next_estate_id) × (get? id s.estate_leases ≡ lease)

module _ (c : Config) where
  pub do_burn-KeepsOwners :
      (id : UndeployedLandBlockId) (s s' : State c)
      → Blocks.do_burn_undeployed_land_block c id s ≡ ok s'
      → KeepsOwners s s'
  unfolding Blocks.do_burn_undeployed_land_block Blocks.set_total_undeployed_land_unit
  do_burn-KeepsOwners id s s' e = ground arith

  issue_blocks-KeepsOwners :
      (who : AccountId) (k n : ℕ) (type : UndeployedLandBlockType)
      (ids : List UndeployedLandBlockId) (s s' : State c)
      → Blocks.issue_blocks c who k n type s ≡ ok (ids, s')
      → KeepsOwners s s'
  unfolding Blocks.issue_blocks Blocks.issue_block Blocks.get_new_undeployed_land_block_id
      Blocks.set_total_undeployed_land_unit
  issue_blocks-KeepsOwners who zero n type ids s s' e = ground arith
  issue_blocks-KeepsOwners who (suc k) n type ids s s' e =
      let ((id, t), one, e1) = >>=-eq_ok (Blocks.issue_block c who n type s) _ e in
      let ((ids', u), rest, e2) = >>=-eq_ok (Blocks.issue_blocks c who k n type t) _ e1 in
      let first : KeepsOwners s t = ground (arith, one) in
      ground (arith, first, issue_blocks-KeepsOwners who k n type ids' t u rest, e2)

  pub issue-KeepsOwners :
      (o : c.Origin) (who : AccountId) (k n : ℕ) (type : UndeployedLandBlockType) (s s' : State c)
      → Blocks.issue_undeployed_land_blocks c o who k n type s ≡ ok s'
      → KeepsOwners s s'
  unfolding Blocks.issue_undeployed_land_blocks Blocks.do_issue_undeployed_land_blocks
  issue-KeepsOwners o who k n type s s' e =
      let (_, _, e0) = >>=-eq_ok (c.ensure_root o) _ e in
      let ((ids, u), done, e1) =
        >>=-eq_ok (Blocks.do_issue_undeployed_land_blocks c who k n type s) _ e0 in
      let (t, paid, e2) = >>=-eq_ok (Lands.collect_storage_fee c who _ s) _ done in
      let fee = collect_storage_fee-ledger c who _ s t paid in
      ground (arith, fee, issue_blocks-KeepsOwners who k n type ids t u e2, e1)

  pub mint_land-KeepsOwners :
      (o : c.Origin) (who : AccountId) (m : MetaverseId) (p : Coordinate) (s s' : State c)
      → Lands.mint_land c o who m p s ≡ ok s'
      → IsCounted s
      → KeepsOwners s s'
  unfolding Lands.mint_land Lands.set_total_land_unit
  mint_land-KeepsOwners o who m p s s' e h =
      elim (Outcome-cases (mint_land_unit c m (account who) who p non_existing s)) [
        | inl ((owner, t), done) ↦
            let adds =
              mint_land_unit-Adds c m (account who) owner who p non_existing s t h.distinct done in
            ground (arith, done, adds.0)
        | inr failed ↦ ground (arith, failed)
      ]

  pub mint_lands-KeepsOwners :
      (o : c.Origin) (who : AccountId) (m : MetaverseId) (ps : List Coordinate) (s s' : State c)
      → Lands.mint_lands c o who m ps s ≡ ok s'
      → IsCounted s
      → KeepsOwners s s'
  unfolding Lands.mint_lands Lands.set_total_land_unit
  mint_lands-KeepsOwners o who m ps s s' e h =
      elim (Outcome-cases (mint_land_units c m (account who) who non_existing ps s)) [
        | inl (t, done) ↦
            let adds =
              mint_land_units-Adds c m (account who) who non_existing ps s t h.distinct done in
            ground (arith, done, adds.0)
        | inr failed ↦ ground (arith, failed)
      ]

  pub deploy-KeepsOwners :
      (o : c.Origin) (id : UndeployedLandBlockId) (m : MetaverseId) (block : Coordinate)
      (ps : List Coordinate) (s s' : State c)
      → Blocks.deploy_land_block c o id m block ps s ≡ ok s'
      → IsCounted s
      → KeepsOwners s s'
  unfolding Blocks.deploy_land_block Lands.set_total_land_unit
  deploy-KeepsOwners o id m block ps s s' e h =
      let (who, signed, e0) = >>=-eq_ok (c.ensure_signed o) _ e in
      elim (Outcome-cases (Lands.collect_network_fee c who s)) [
        | inl (t, paid) ↦
            let fee = collect_network_fee-ledger c who s t paid in
            let (u, minted, e1) =
              >>=-eq_ok (mint_land_units c m (account who) who non_existing ps t) _
                (deploy_tail c id m block ps who o s s' t signed paid e) in
            let (v, counted, e2) =
              >>=-eq_ok (Lands.set_total_land_unit c (length ps) false u) _ e1 in
            let (w, burnt, e3) = >>=-eq_ok (Blocks.do_burn_undeployed_land_block c id v) _ e2 in
            let start : IsCounted t = ground (arith, fee) in
            let adds =
              mint_land_units-Adds c m (account who) who non_existing ps t u start.distinct
                minted in
            ground (arith, fee, adds.0, counted, do_burn-KeepsOwners id v w burnt, e3)
        | inr failed ↦ absurd (ground (arith, failed))
      ]
