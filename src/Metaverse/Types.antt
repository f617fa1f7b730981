-- ===== src/Metaverse/Types.antt =====
-- pallets/metaverse/src/lib.rs: the errors, the events, the configuration and the storage.
use versus_project_metaverse.Prelude.{ℕ, List, ◌∷◌, Outcome}
use versus_project_metaverse.Prelude.Maps.{Map}
use versus_project_metaverse.Primitives.{
  AccountId, Balance, RoundIndex, MetaverseId, ClassId, NftMetadata, Attributes, FungibleTokenId,
  Perbill, RoundInfo, MetaverseInfo,
}

-- `Error<T>`
pub data Error : Type 0 where
  metaverse_info_not_found metaverse_id_not_found no_permission no_available_metaverse_id : Error
  fungible_token_already_issued max_metadata_exceeded insufficient_contribution : Error
  only_frozen_metaverse_can_be_destroyed already_registered_for_staking : Error
  not_registered_for_staking not_enough_balance_to_stake : Error
  maximum_amount_of_stakers_per_metaverse minimum_staking_amount_required : Error
  insufficient_balance_to_unstake metaverse_staking_info_not_found : Error
  metaverse_staking_already_paid metaverse_has_no_stake : Error
  metaverse_listing_fee_exceed_threshold : Error

-- `Event<T>`
pub data Event : Type 0 where
  new_metaverse_created : MetaverseId → AccountId → Event
  transferred_metaverse : MetaverseId → AccountId → AccountId → Event
  metaverse_freezed metaverse_destroyed metaverse_unfreezed : MetaverseId → Event
  metaverse_minted_new_currency : MetaverseId → FungibleTokenId → Event
  new_metaverse_registered_for_staking : MetaverseId → AccountId → Event
  metaverse_staked metaverse_unstaked : AccountId → MetaverseId → Balance → Event
  metaverse_staking_rewarded : AccountId → MetaverseId → RoundIndex → Balance → Event
  metaverse_listing_fee_updated : MetaverseId → Perbill → Event
  metaverse_treasury_funds_withdrawn : MetaverseId → Event

abbrev pub Result : Type 0 → Type 0
Result A = Outcome Error A

-- `MetaverseStakingSnapshot`
pub record MetaverseStakingSnapshot : Type 0 where
  pub rewards : Balance
  pub staked : Balance

-- `MetaverseStakingPoints`
pub record MetaverseStakingPoints : Type 0 where
  pub total : Balance
  pub stakers : Map AccountId Balance
  pub claimed_rewards : Balance

-- The associated types of `Config`, the pallets behind them each over a state of its own. A transfer
-- keeps the sender alive.
pub record Config : Type 1 where
  pub Origin : Type 0
  pub ensure_signed : Origin → Result AccountId
  -- `MetaverseCouncil`
  pub ensure_council : Origin → Result (Unit {0})
  pub Ledger : Type 0
  pub free_balance : AccountId → Ledger → Balance
  pub minimum_balance : Balance
  pub transfer : AccountId → AccountId → Balance → Ledger → Result Ledger
  pub set_lock : AccountId → Balance → Ledger → Ledger
  pub remove_lock : AccountId → Ledger → Ledger
  -- `NFTHandler`: a class that is transferable and collectable, with a royalty fee of 0.
  pub Nfts : Type 0
  pub create_token_class : AccountId → NftMetadata → Attributes → Nfts → Result (ClassId × Nfts)
  pub get_total_issuance : ClassId → Nfts → Result ℕ
  pub network_treasury : AccountId
  -- `MetaverseTreasury`, as an account and for each metaverse.
  pub treasury_account : AccountId
  pub metaverse_account : MetaverseId → AccountId
  pub max_metaverse_metadata : ℕ
  pub min_contribution : Balance
  pub storage_deposit_fee : Balance
  -- `Perbill::from_percent`
  pub from_percent : ℕ → Perbill

-- The storage of the pallet, with the states of the pallets that it calls. The newest event is
-- first.
pub record State (c : Config) : Type 0 where
  pub next_metaverse_id : MetaverseId
  pub metaverses : Map MetaverseId MetaverseInfo
  pub metaverse_owner : Map (AccountId × MetaverseId) (Unit {0})
  pub all_metaverses_count : ℕ
  pub freezed_metaverses : Map MetaverseId (Unit {0})
  pub round : RoundInfo
  pub registered_metaverse : Map MetaverseId AccountId
  pub metaverse_staking_snapshots : Map RoundIndex MetaverseStakingSnapshot
  pub metaverse_round_stake : Map (MetaverseId × RoundIndex) MetaverseStakingPoints
  pub staking_info : Map AccountId Balance
  pub events : List Event
  pub ledger : c.Ledger
  pub nfts : c.Nfts

abbrev pub deposit_event : {c : Config} → Event → State c → State c
deposit_event e s = record s { events = e ∷ s.events }
