-- ===== src/EstateStaking/Tests.antt =====
-- The theorem on stakes on estates at a small runtime: account 5 holds estate 0, of two units.
use versus_project_metaverse.Prelude.{◌≡◌, none, some, [], ok, refl, nat_eq, pair_eq, value_or}
use versus_project_metaverse.Prelude.Maps.{get?, insert}
use versus_project_metaverse.Prelude.Lists.{length}
use versus_project_metaverse.Primitives.{AccountId, Bond}
use versus_project_metaverse.Economy
use versus_project_metaverse.Economy.Staking
use versus_project_metaverse.Estate.Handler
use versus_project_metaverse.Estate.Leases
use versus_project_metaverse.Estate.Estates
use versus_project_metaverse.Estate.Lands
use versus_project_metaverse.Estate.Coordinates
use versus_project_metaverse.Estate.Runtime.{with_estate}
use versus_project_metaverse.Estate
use versus_project_metaverse.EstateStaking.{with_estates, IsBacked, stake-IsBacked}

abbrev before : Economy.Types.State (with_estates Economy.Runtime.runtime Estate.Runtime.runtime)
before = record {
  bit_power_exchange_rate = 0;
  power_balance = [];
  staking_info = [];
  estate_staking_info = [];
  exit_queue = [];
  estate_exit_queue = [];
  total_stake = 0;
  total_estate_stake = 0;
  innovation_staking_info = [];
  total_innovation_staking = 0;
  shares_and_withdrawn_rewards = [];
  staking_reward_pool_info = none;
  innovation_staking_exit_queue = [];
  pending_rewards = [];
  current_era = 0;
  last_era_updated_block = 0;
  update_era_frequency = 0;
  estimated_staking_reward_per_era = 0;
  events = [];
  ledger = record { free = λ _. 1000; reserved = λ _. 0 };
  estates = with_estate;
  round = record { current = 1; first = 1; length = 20 };
  block_number = 10;
}

abbrev after : Economy.Types.State (with_estates Economy.Runtime.runtime Estate.Runtime.runtime)
after = value_or before (
    Staking.stake (with_estates Economy.Runtime.runtime Estate.Runtime.runtime) 5 100 (some 0)
      before)

stake-IsBacked_example :
    (who : AccountId) × (Economy.Runtime.runtime.ensure_signed 5 ≡ ok who)
    × ((bond : Bond) × (get? 0 after.estate_staking_info ≡ some bond)
        × (bond.staker ≡ who)
        × IsBacked Economy.Runtime.runtime Estate.Runtime.runtime who 0 bond before.estates)
unfolding Staking.stake Staking.stake_estate Staking.bonded Handler.check_estate
    Handler.get_total_land_units Leases.check_estate_ownership Estates.mint_estate
    Estates.mint_estate_token Estates.update_estate_information Lands.get_new_estate_id
    Lands.mint_land_units Lands.mint_land_unit Lands.set_total_land_unit Estate.Calls.dispatch
    length get? insert Coordinates.get_estate_token_properties Coordinates.to_be_bytes
stake-IsBacked_example =
    stake-IsBacked Economy.Runtime.runtime Estate.Runtime.runtime 5 100 0 before after refl
