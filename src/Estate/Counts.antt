-- ===== src/Estate/Counts.antt =====
-- pallets/estate/src/lib.rs: the counts of land units, of undeployed land units and of estates, and
-- the ids of estates and blocks, across the calls.
use versus_project_metaverse.Prelude.{
  ℕ, ◌+◌, ◌≡◌, ◌<◌, false, none, some, List, ok, arith, inl, inr, Outcome-cases, nat_eq, pair_eq,
}
use versus_project_metaverse.Prelude.Maps.{get?, Distinct}
use versus_project_metaverse.Prelude.Totals.{total}
use versus_project_metaverse.Prelude.Keys.{
  Below, Below-weaken, Below-fresh, insert-Below, size, size-insert,
}
use versus_project_metaverse.Primitives.{
  AccountId, MetaverseId, Coordinate, EstateId, UndeployedLandBlockId, UndeployedLandBlock,
  EstateInfo, OwnerId, account, non_existing,
}
use versus_project_metaverse.Estate.Types.{Config, State}
use versus_project_metaverse.Estate.Lands
use versus_project_metaverse.Estate.Lands.{mint_land_unit, mint_land_units}
use versus_project_metaverse.Estate.Estates
use versus_project_metaverse.Estate.Estates.{add_units, remove_units, mint_estate_token, percent_of}
use versus_project_metaverse.Estate.Frames.{Adds, mint_land_unit-Adds, mint_land_units-Adds}

abbrev pub units_in : UndeployedLandBlockId → UndeployedLandBlock → ℕ
units_in _ block = block.number_land_units

-- The counts are those of the entries, and the ids that are left to hand out are fresh.
pub record IsCounted {c : Config} (s : State c) : Type 0 where
  pub units : size s.land_units ≡ s.all_land_units_count
  pub distinct : Distinct s.land_units
  pub estates : size s.estates ≡ s.all_estates_count
  pub estate_ids : Below s.next_estate_id s.estates
  pub blocks : total units_in s.undeployed_land_blocks ≡ s.total_undeployed_land_unit
  pub block_ids : Below s.next_undeployed_land_block_id s.undeployed_land_blocks

-- The blocks, their owners and the leases are the same.
abbrev pub KeepsRest : {c : Config} → State c → State c → Type 0
KeepsRest s s' =
    (s'.undeployed_land_blocks ≡ s.undeployed_land_blocks)
    × (s'.undeployed_land_blocks_owner ≡ s.undeployed_land_blocks_owner)
    × (s'.estate_leases ≡ s.estate_leases)
    × (s'.estate_leasors ≡ s.estate_leasors)

abbrev pub Counts : {c : Config} → State c → State c → Type 0
Counts s s' = IsCounted s' × KeepsRest s s'

module _ (c : Config) where
  pub mint_land-Counts :
      (o : c.Origin) (who : AccountId) (m : MetaverseId) (p : Coordinate) (s s' : State c)
      → Lands.mint_land c o who m p s ≡ ok s'
      → IsCounted s
      → Counts s s'
  unfolding Lands.mint_land Lands.set_total_land_unit
  mint_land-Counts o who m p s s' e h =
      elim (Outcome-cases (mint_land_unit c m (account who) who p non_existing s)) [
        | inl ((owner, t), done) ↦
            let adds =
              mint_land_unit-Adds c m (account who) owner who p non_existing s t h.distinct done in
            ground (arith, done, adds.0, adds.1, adds.2)
        | inr failed ↦ ground (arith, failed)
      ]

  pub mint_lands-Counts :
      (o : c.Origin) (who : AccountId) (m : MetaverseId) (ps : List Coordinate) (s s' : State c)
      → Lands.mint_lands c o who m ps s ≡ ok s'
      → IsCounted s
      → Counts s s'
  unfolding Lands.mint_lands Lands.set_total_land_unit
  mint_lands-Counts o who m ps s s' e h =
      elim (Outcome-cases (mint_land_units c m (account who) who non_existing ps s)) [
        | inl (t, done) ↦
            let adds =
              mint_land_units-Adds c m (account who) who non_existing ps s t h.distinct done in
            ground (arith, done, adds.0, adds.1, adds.2)
        | inr failed ↦ ground (arith, failed)
      ]

  pub update_estate_information-Counts :
      (id : EstateId) (m : MetaverseId) (owner : OwnerId) (ps : List Coordinate) (s s' : State c)
      → Estates.update_estate_information c id m owner ps s ≡ ok s'
      → id < s.next_estate_id
      → get? id s.estates ≡ none
      → IsCounted s
      → Counts s s'
  unfolding Estates.update_estate_information
  update_estate_information-Counts id m owner ps s s' e b fresh h =
      let info : EstateInfo = record { metaverse_id = m; land_units = ps } in
      ground (
        arith,
        size-insert id info s.estates,
        insert-Below s.next_estate_id id info s.estates b h.estate_ids,
      )

  pub collect_storage_fee-ledger :
      (who : AccountId) (n : ℕ) (s t : State c)
      → Lands.collect_storage_fee c who n s ≡ ok t
      → t ≡ record s { ledger = t.ledger }
  unfolding Lands.collect_storage_fee
  collect_storage_fee-ledger who n s t e = ground arith

  pub collect_network_fee-ledger :
      (who : AccountId) (s t : State c)
      → Lands.collect_network_fee c who s ≡ ok t
      → t ≡ record s { ledger = t.ledger }
  unfolding Lands.collect_network_fee
  collect_network_fee-ledger who s t e = ground arith

  pub owned_estate-exists :
      (who : AccountId) (id : EstateId) (owner : OwnerId) (info : EstateInfo) (s : State c)
      → Estates.owned_estate c who id s ≡ ok (owner, info)
      → get? id s.estates ≡ some info
  unfolding Estates.owned_estate
  owned_estate-exists who id owner info s e = ground arith

  -- The units that a loop adds, counted.
  pub add_count-IsCounted :
      (k n : ℕ) (s t u : State c)
      → k ≡ n
      → IsCounted s
      → Adds k s t
      → Lands.set_total_land_unit c n false t ≡ ok u
      → IsCounted u × (u ≡ record t { all_land_units_count = u.all_land_units_count })
  unfolding Lands.set_total_land_unit
  add_count-IsCounted k n s t u k_n h adds e = ground (arith, adds.0, adds.1, adds.2)

  -- A new id, and a token for it.
  pub new_estate-IsCounted :
      (m : MetaverseId) (who : AccountId) (id : EstateId) (owner : OwnerId) (s t u : State c)
      → Lands.get_new_estate_id c s ≡ ok (id, t)
      → mint_estate_token c m who id t ≡ ok (owner, u)
      → IsCounted s
      → IsCounted u × (id < u.next_estate_id) × (get? id u.estates ≡ none) × KeepsRest s u
  unfolding Lands.get_new_estate_id Estates.mint_estate_token
  new_estate-IsCounted m who id owner s t u e f h = ground (
    arith,
    Below-fresh s.next_estate_id s.next_estate_id s.estates,
    Below-weaken s.next_estate_id (s.next_estate_id + 1) s.estates,
    h.estate_ids,
  )
