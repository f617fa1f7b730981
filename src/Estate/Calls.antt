-- ===== src/Estate/Calls.antt =====
-- pallets/estate/src/lib.rs: the calls of the pallet as one type, and the histories of its state.
use versus_project_metaverse.Prelude.{ℕ, List, ok, ◌≡◌}
use versus_project_metaverse.Primitives.{
  AccountId, Balance, BlockNumber, EstateId, MetaverseId, Coordinate, UndeployedLandBlockId,
  UndeployedLandBlockType,
}
use versus_project_metaverse.Estate.Types.{Config, State, Result}
use versus_project_metaverse.Estate.Lands
use versus_project_metaverse.Estate.Estates
use versus_project_metaverse.Estate.Blocks
use versus_project_metaverse.Estate.Leases

pub data Call (c : Config) : Type 0 where
  mint_land : c.Origin → AccountId → MetaverseId → Coordinate → Call c
  mint_lands mint_estate : c.Origin → AccountId → MetaverseId → List Coordinate → Call c
  transfer_land : c.Origin → AccountId → MetaverseId → Coordinate → Call c
  create_estate : c.Origin → MetaverseId → List Coordinate → Call c
  transfer_estate : c.Origin → AccountId → EstateId → Call c
  deploy_land_block :
      c.Origin → UndeployedLandBlockId → MetaverseId → Coordinate → List Coordinate → Call c
  issue_undeployed_land_blocks : c.Origin → AccountId → ℕ → ℕ → UndeployedLandBlockType → Call c
  freeze_undeployed_land_blocks unfreeze_undeployed_land_blocks :
      c.Origin → UndeployedLandBlockId → Call c
  transfer_undeployed_land_blocks approve_undeployed_land_blocks :
      c.Origin → AccountId → UndeployedLandBlockId → Call c
  burn_undeployed_land_blocks unapprove_undeployed_land_blocks :
      c.Origin → UndeployedLandBlockId → Call c
  dissolve_estate remove_lease_offer : c.Origin → EstateId → Call c
  add_land_unit_to_estate remove_land_unit_from_estate :
      c.Origin → EstateId → List Coordinate → Call c
  create_lease_offer : c.Origin → EstateId → Balance → ℕ → Call c
  accept_lease_offer remove_expired_lease collect_rent : c.Origin → EstateId → AccountId → Call c
  cancel_lease : c.Origin → AccountId → EstateId → AccountId → Call c

unfoldable pub dispatch : (c : Config) → Call c → State c → Result (State c)
dispatch c (mint_land o who m unit) s = Lands.mint_land c o who m unit s
dispatch c (mint_lands o who m units) s = Lands.mint_lands c o who m units s
dispatch c (mint_estate o who m units) s = Estates.mint_estate c o who m units s
dispatch c (transfer_land o to m unit) s = Lands.transfer_land c o to m unit s
dispatch c (create_estate o m units) s = Estates.create_estate c o m units s
dispatch c (transfer_estate o to id) s = Estates.transfer_estate c o to id s
dispatch c (deploy_land_block o id m block units) s =
    Blocks.deploy_land_block c o id m block units s
dispatch c (issue_undeployed_land_blocks o who number units type) s =
    Blocks.issue_undeployed_land_blocks c o who number units type s
dispatch c (freeze_undeployed_land_blocks o id) s = Blocks.freeze_undeployed_land_blocks c o id s
dispatch c (unfreeze_undeployed_land_blocks o id) s =
    Blocks.unfreeze_undeployed_land_blocks c o id s
dispatch c (transfer_undeployed_land_blocks o to id) s =
    Blocks.transfer_undeployed_land_blocks c o to id s
dispatch c (approve_undeployed_land_blocks o to id) s =
    Blocks.approve_undeployed_land_blocks c o to id s
dispatch c (burn_undeployed_land_blocks o id) s = Blocks.burn_undeployed_land_blocks c o id s
dispatch c (unapprove_undeployed_land_blocks o id) s =
    Blocks.unapprove_undeployed_land_blocks c o id s
dispatch c (dissolve_estate o id) s = Estates.dissolve_estate c o id s
dispatch c (remove_lease_offer o id) s = Leases.remove_lease_offer c o id s
dispatch c (add_land_unit_to_estate o id units) s = Estates.add_land_unit_to_estate c o id units s
dispatch c (remove_land_unit_from_estate o id units) s =
    Estates.remove_land_unit_from_estate c o id units s
dispatch c (create_lease_offer o id price duration) s =
    Leases.create_lease_offer c o id price duration s
dispatch c (accept_lease_offer o id who) s = Leases.accept_lease_offer c o id who s
dispatch c (remove_expired_lease o id who) s = Leases.remove_expired_lease c o id who s
dispatch c (collect_rent o id who) s = Leases.collect_rent c o id who s
dispatch c (cancel_lease o owner id who) s = Leases.cancel_lease c o owner id who s

-- One step of the chain as this pallet sees it: a call that succeeds, or what the rest of the runtime
-- does: a new block, and changes of the states of other pallets.
pub data Step (c : Config) : State c → State c → Type 0 where
  called : {s s' : State c} (call : Call c) → dispatch c call s ≡ ok s' → Step c s s'
  elsewhere :
      {s : State c} (l : c.Ledger) (n : c.Nfts) (m : c.Metaverses) (a : c.Auctions)
      (b : BlockNumber)
      → Step c s (record s { ledger = l; nfts = n; metaverses = m; auctions = a; block_number = b })

-- A history of the chain.
pub data Reach (c : Config) (s : State c) : State c → Type 0 where
  here : Reach c s s
  next : {t u : State c} → Reach c s t → Step c t u → Reach c s u

-- A property that every step keeps holds after every history.
pub Reach-Kept :
    (c : Config) (P : State c → Type 0)
    → ((call : Call c) (s s' : State c) → dispatch c call s ≡ ok s' → P s → P s')
    → ((s : State c) (l : c.Ledger) (n : c.Nfts) (m : c.Metaverses) (a : c.Auctions)
          (b : BlockNumber)
        → P s
        → P (record s { ledger = l; nfts = n; metaverses = m; auctions = a; block_number = b }))
    → (s s' : State c) → Reach c s s'
    → P s
    → P s'
Reach-Kept c P calls others s _ here h = h
Reach-Kept c P calls others s s' (next {t} r (called call e)) h =
    calls call t s' e (Reach-Kept c P calls others s t r h)
Reach-Kept c P calls others s s' (next {t} r (elsewhere l n m a b)) h =
    others t l n m a b (Reach-Kept c P calls others s t r h)
