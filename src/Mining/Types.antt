-- ===== src/Mining/Types.antt =====
-- pallets/mining/src/lib.rs: the errors, the events, the configuration and the storage.
use versus_project_metaverse.Prelude.{Bool, List, ◌∷◌, Outcome}
use versus_project_metaverse.Prelude.Maps.{Map}
use versus_project_metaverse.Primitives.{
  AccountId, Balance, BlockNumber, RoundIndex, FungibleTokenId, RoundInfo, MiningRange, Perbill,
  MiningResourceRateInfo,
}

-- `Error<T>`
pub data Error : Type 0 where
  amount_zero balance_low balance_zero insufficient_balance no_permission_token_issuance : Error
  no_permission origins_already_exist origins_is_not_exist round_update_is_on_progress : Error
  mining_round_already_paused mining_round_is_not_paused : Error

-- `Event<T>`
pub data Event : Type 0 where
  mining_resource_minted mining_resource_burned : Balance → Event
  deposit_mining_resource withdraw_mining_resource : AccountId → Balance → Event
  add_new_mining_origin remove_mining_origin : AccountId → Event
  new_mining_round : RoundIndex → MiningRange → Event
  round_length_updated : BlockNumber → Event
  mining_config_updated : BlockNumber → MiningResourceRateInfo → Event
  mining_resource_minted_to mining_resource_burn_from : AccountId → Balance → Event
  mining_round_paused mining_round_unpaused : BlockNumber → RoundIndex → Event

abbrev pub Result : Type 0 → Type 0
Result A = Outcome Error A

-- The associated types of `Config`, with `Perbill`'s arithmetic: `of_perbill p` is the
-- multiplication by `p`, and `perbill_div p n` the division of `p` by a u32.
pub record Config : Type 1 where
  pub Origin : Type 0
  pub ensure_signed : Origin → Result AccountId
  pub ensure_root : Origin → Result (Unit {0})
  pub ensure_admin : Origin → Result AccountId
  -- `MiningCurrency`, and `Currency` for the storage deposit
  pub Ledger : Type 0
  pub free_balance : FungibleTokenId → AccountId → Ledger → Balance
  pub total_issuance : FungibleTokenId → Ledger → Balance
  pub deposit : FungibleTokenId → AccountId → Balance → Ledger → Result Ledger
  pub can_slash : FungibleTokenId → AccountId → Balance → Ledger → Bool
  pub slash : FungibleTokenId → AccountId → Balance → Ledger → Ledger
  pub transfer : FungibleTokenId → AccountId → AccountId → Balance → Ledger → Result Ledger
  pub transfer_keep_alive : AccountId → AccountId → Balance → Ledger → Result Ledger
  pub of_perbill : Perbill → Balance → Balance
  pub perbill_div : Perbill → Balance → Result Perbill
  pub bit_mining_treasury : AccountId
  pub bit_mining_resource_id : FungibleTokenId
  pub treasury_staking_reward : Perbill
  pub network_treasury_account : AccountId
  pub storage_deposit_fee : Balance

-- The storage of the pallet, with the ledger and the block number of the system. The newest event
-- is first.
pub record State (c : Config) : Type 0 where
  pub minting_origins : Map AccountId (Unit {0})
  pub round : RoundInfo
  pub mining_config : MiningResourceRateInfo
  pub current_mining_resource_allocation : MiningRange
  pub mining_paused : Bool
  pub events : List Event
  pub ledger : c.Ledger
  pub block_number : BlockNumber

abbrev pub deposit_event : {c : Config} → Event → State c → State c
deposit_event e s = record s { events = e ∷ s.events }
