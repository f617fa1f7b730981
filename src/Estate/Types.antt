-- ===== src/Estate/Types.antt =====
-- pallets/estate/src/lib.rs: the errors, the events, the configuration and the storage.
use versus_project_metaverse.Prelude.{ℕ, List, ◌∷◌, Bool, Outcome, module_error, err}
use versus_project_metaverse.Prelude.Maps.{Map}
use versus_project_metaverse.Primitives.{
  AccountId, Balance, BlockNumber, EstateId, MetaverseId, ClassId, TokenId, NftMetadata, Attributes,
  UndeployedLandBlockId, OwnerId, EstateInfo, LeaseContract, UndeployedLandBlock, Coordinate,
  ItemId,
}

-- `Error<T>`
pub data Error : Type 0 where
  no_permission no_available_estate_id insufficient_fund estate_id_already_exist : Error
  land_unit_is_not_available land_unit_is_out_of_bound undeployed_land_block_not_found : Error
  undeployed_land_block_is_not_transferable : Error
  undeployed_land_block_does_not_have_enough_land_units : Error
  undeployed_land_block_unit_and_input_does_not_match undeployed_land_block_not_owned : Error
  already_own_the_undeployed_land_block undeployed_land_block_freezed : Error
  undeployed_land_block_already_freezed undeployed_land_block_not_frozen : Error
  already_own_the_estate already_own_the_land_unit estate_not_in_auction : Error
  land_unit_not_in_auction estate_already_in_auction land_unit_already_in_auction : Error
  undeployed_land_block_already_in_auction estate_does_not_exist land_unit_does_not_exist : Error
  only_frozen_undeployed_land_block_can_be_destroyed below_minimum_stake value_overflow : Error
  estate_stake_already_left account_has_no_stake invalid_owner_value : Error
  coordinates_for_estate_is_not_valid : Error
  insufficient_balance_for_deploying_land_or_creating_estate land_unit_already_in_estate : Error
  estate_is_already_leased estate_lease_offers_queue_limit_is_reached : Error
  lease_offer_price_below_minimum lease_offer_does_not_exist lease_offer_already_exists : Error
  lease_offer_is_not_expired lease_does_not_exist lease_is_not_expired lease_is_expired : Error
  lease_offer_duration_above_maximum no_unclaimed_rent_left : Error

-- `Event<T>`
pub data Event : Type 0 where
  new_lands_minted : AccountId → MetaverseId → List Coordinate → Event
  transferred_land_unit : MetaverseId → Coordinate → AccountId → AccountId → Event
  transferred_estate : EstateId → AccountId → AccountId → Event
  new_land_unit_minted : OwnerId → MetaverseId → Coordinate → Event
  new_estate_minted : EstateId → OwnerId → MetaverseId → List Coordinate → Event
  max_bound_set : MetaverseId → Coordinate → Event
  land_block_deployed : AccountId → MetaverseId → UndeployedLandBlockId → List Coordinate → Event
  undeployed_land_block_issued : AccountId → UndeployedLandBlockId → Event
  undeployed_land_block_transferred : AccountId → AccountId → UndeployedLandBlockId → Event
  undeployed_land_block_approved : AccountId → AccountId → UndeployedLandBlockId → Event
  estate_destroyed : EstateId → OwnerId → Event
  estate_updated land_unit_added land_units_removed : EstateId → OwnerId → List Coordinate → Event
  undeployed_land_block_unapproved undeployed_land_block_freezed_event :
      UndeployedLandBlockId → Event
  undeployed_land_block_unfreezed undeployed_land_block_burnt : UndeployedLandBlockId → Event
  estate_lease_offer_created : AccountId → EstateId → Balance → Event
  estate_lease_offer_accepted : EstateId → AccountId → BlockNumber → Event
  estate_lease_offer_removed : AccountId → EstateId → Event
  estate_lease_contract_ended estate_lease_contract_cancelled : EstateId → Event
  estate_rent_collected : EstateId → Balance → Event
  new_round : BlockNumber → ℕ → ℕ → Event

abbrev pub Result : Type 0 → Type 0
Result A = Outcome Error A

-- The associated types of `Config`: the constants of the runtime, and the pallets behind the
-- handlers, each over a state of its own. Where the code drops the result of a call, the parameter
-- is the state that the call leaves, whether it succeeds or not.
pub record Config : Type 1 where
  pub Origin : Type 0
  pub ensure_signed : Origin → Result AccountId
  pub ensure_root : Origin → Result (Unit {0})
  -- `Currency`; the transfer keeps the sender alive.
  pub Ledger : Type 0
  pub transfer : AccountId → AccountId → Balance → Ledger → Result Ledger
  pub reserve : AccountId → Balance → Ledger → Ledger
  pub unreserve : AccountId → Balance → Ledger → Ledger
  -- `NFTTokenizationSource`
  pub Nfts : Type 0
  pub nft_ownership : AccountId → ClassId × TokenId → Nfts → Result Bool
  pub mint_token : AccountId → ClassId → NftMetadata → Attributes → Nfts → Result (TokenId × Nfts)
  pub burn_nft : AccountId → ClassId × TokenId → Nfts → Nfts
  pub transfer_nft : AccountId → AccountId → ClassId × TokenId → Nfts → Nfts
  pub set_lock_nft : ClassId × TokenId → Bool → Nfts → Result Nfts
  -- `MetaverseInfoSource`
  pub Metaverses : Type 0
  pub metaverse_ownership : AccountId → MetaverseId → Metaverses → Bool
  pub get_metaverse_land_class : MetaverseId → Metaverses → Result ClassId
  pub get_metaverse_estate_class : MetaverseId → Metaverses → Result ClassId
  pub network_treasury : AccountId
  -- `AuctionHandler`
  pub Auctions : Type 0
  pub check_item_in_auction : ItemId → Auctions → Bool
  -- `LandTreasury::get().into_sub_account_truncating`
  pub estate_account : EstateId → AccountId
  -- `Perbill::from_percent(p) * amount`
  pub of_percent : ℕ → Balance → Balance
  pub block_number_to_balance : BlockNumber → Balance
  pub default_max_bound : ℕ × ℕ
  pub network_fee : Balance
  pub storage_deposit_fee : Balance
  pub max_offers_per_estate : ℕ
  pub min_lease_price_per_block : Balance
  pub max_lease_period : ℕ
  pub lease_offer_expiry_period : ℕ

-- The storage of the pallet, with the states of the pallets that it calls. The newest event is
-- first.
pub record State (c : Config) : Type 0 where
  pub all_land_units_count : ℕ
  pub total_undeployed_land_unit : ℕ
  pub land_units : Map (MetaverseId × Coordinate) OwnerId
  pub next_estate_id : EstateId
  pub all_estates_count : ℕ
  pub estates : Map EstateId EstateInfo
  pub estate_owner : Map EstateId OwnerId
  pub next_undeployed_land_block_id : UndeployedLandBlockId
  pub undeployed_land_blocks : Map UndeployedLandBlockId UndeployedLandBlock
  pub undeployed_land_blocks_owner : Map (AccountId × UndeployedLandBlockId) (Unit {0})
  pub estate_leases : Map EstateId LeaseContract
  pub estate_leasors : Map (AccountId × EstateId) (Unit {0})
  pub estate_lease_offers : Map (EstateId × AccountId) LeaseContract
  pub events : List Event
  pub ledger : c.Ledger
  pub nfts : c.Nfts
  pub metaverses : c.Metaverses
  pub auctions : c.Auctions
  pub block_number : BlockNumber

abbrev pub deposit_event : {c : Config} → Event → State c → State c
deposit_event e s = record s { events = e ∷ s.events }

abbrev pub fail : {A : Type 0} → Error → Result A
fail e = err (module_error e)
