-- ===== src/Economy/Types.antt =====
-- pallets/economy/src/lib.rs: the errors, the events, the configuration and the storage.
use versus_project_metaverse.Prelude.{ℕ, Bool, Option, List, Outcome, module_error, err}
use versus_project_metaverse.Prelude.Maps.{Map}
use versus_project_metaverse.Primitives.{
  AccountId, Balance, BlockNumber, RoundIndex, EraIndex, EstateId, PowerAmount, FungibleTokenId,
  RoundInfo, Bond,
}

-- `Error<T>`
pub data Error : Type 0 where
  nft_asset_does_not_exist nft_class_does_not_exist nft_collection_does_not_exist : Error
  no_permission no_authorization account_has_no_power_balance power_amount_is_zero : Error
  insufficient_balance_for_staking unstake_amount_exceed_staked_amount : Error
  exit_queue_already_scheduled stake_below_minimum withdraw_future_round : Error
  exit_queue_does_not_exit unstake_amount_is_zero request_already_exist : Error
  not_ready_to_execute staker_not_estate_owner stake_estate_does_not_exist : Error
  staker_not_previous_owner no_funds_staked_at_estate : Error
  previous_owner_still_stakes_at_estate estate_exit_queue_already_scheduled : Error
  estate_exit_queue_does_not_exit stake_amount_exceed_maximum_amount : Error
  invalid_last_era_updated_block unexpected reward_pool_does_not_exist : Error
  invalid_estimated_reward_setup : Error

-- `Event<T>`
pub data Event : Type 0 where
  mining_resource_burned : Balance → Event
  self_staked_to_economy101 : AccountId → Balance → Event
  estate_staked_to_economy101 : AccountId → EstateId → Balance → Event
  self_staking_removed_from_economy101 : AccountId → Balance → Event
  estate_staking_removed_from_economy101 : AccountId → EstateId → Balance → Event
  bit_power_exchange_rate_updated : Balance → Event
  unstaked_amount_withdrew : AccountId → Balance → Event
  set_power_balance : AccountId → PowerAmount → Event
  cancel_power_conversion_request : ℕ × ℕ → AccountId → Event
  staked_innovation : AccountId → Balance → Event
  unstaked_innovation : AccountId → Balance → Event
  claimed_rewards : AccountId → FungibleTokenId → Balance → Event
  current_innovation_staking_era_updated : EraIndex → Event
  updated_innovation_staking_era_frequency : BlockNumber → Event
  last_innovation_staking_era_updated : BlockNumber → Event
  estimated_reward_per_era_updated : Balance → Event

abbrev pub Result : Type 0 → Type 0
Result A = Outcome Error A

-- The associated types of `Config`: the constants of the runtime, and the pallets behind the
-- handlers, each over a state of its own.
pub record Config : Type 1 where
  pub Origin : Type 0
  pub ensure_signed : Origin → Result AccountId
  pub ensure_root : Origin → Result (Unit {0})
  -- `Currency` and `FungibleTokenCurrency`
  pub Ledger : Type 0
  pub free_balance : AccountId → Ledger → Balance
  pub reserved_balance : AccountId → Ledger → Balance
  pub reserve : AccountId → Balance → Ledger → Result Ledger
  pub unreserve : AccountId → Balance → Ledger → Ledger
  pub transfer : FungibleTokenId → AccountId → AccountId → Balance → Ledger → Result Ledger
  -- `EstateHandler`
  pub Estates : Type 0
  pub check_estate : EstateId → Estates → Result Bool
  pub check_estate_ownership : AccountId → EstateId → Estates → Result Bool
  pub get_total_land_units : Option EstateId → Estates → ℕ
  pub minimum_stake : Balance
  pub maximum_estate_stake : Balance
  pub power_amount_per_block : PowerAmount
  pub reward_payout_account : AccountId

-- `InnovationStakingPoolInfo`: of each reward currency the total and what is withdrawn of it.
pub record PoolInfo : Type 0 where
  pub total_shares : Balance
  pub rewards : Map FungibleTokenId (Balance × Balance)

-- The storage of the pallet, with the states of the pallets that it calls: `ledger`, `estates`,
-- `round` (of the round handler) and `block_number` (of the system). The newest event is first.
pub record State (c : Config) : Type 0 where
  pub bit_power_exchange_rate : Balance
  pub power_balance : Map AccountId PowerAmount
  pub staking_info : Map AccountId Balance
  pub estate_staking_info : Map EstateId Bond
  pub exit_queue : Map (AccountId × RoundIndex) Balance
  pub estate_exit_queue : Map (AccountId × (RoundIndex × EstateId)) Balance
  pub total_stake : Balance
  pub total_estate_stake : Balance
  pub innovation_staking_info : Map AccountId Balance
  pub total_innovation_staking : Balance
  pub shares_and_withdrawn_rewards : Map AccountId (Balance × Map FungibleTokenId Balance)
  pub staking_reward_pool_info : Option PoolInfo
  pub innovation_staking_exit_queue : Map (AccountId × RoundIndex) Balance
  pub pending_rewards : Map AccountId (Map FungibleTokenId Balance)
  pub current_era : EraIndex
  pub last_era_updated_block : BlockNumber
  pub update_era_frequency : BlockNumber
  pub estimated_staking_reward_per_era : Balance
  pub events : List Event
  pub ledger : c.Ledger
  pub estates : c.Estates
  pub round : RoundInfo
  pub block_number : BlockNumber

abbrev pub deposit_event : {c : Config} → Event → State c → State c
deposit_event e s = record s { events = List.◌∷◌ e s.events }

abbrev pub fail : {A : Type 0} → Error → Result A
fail e = err (module_error e)
