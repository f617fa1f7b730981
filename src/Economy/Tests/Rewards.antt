-- ===== src/Economy/Tests/Rewards.antt =====
-- The theorems on shares, eras and rewards of pallets/economy at concrete states.
use versus_project_metaverse.Prelude.{
  ◌+◌, ◌*◌, ◌≤◌, ◌<◌, min, nat_eq, pair_eq, u128_max, ◌≡◌, refl, none, some, arith, value_or,
}
use versus_project_metaverse.Prelude.Maps.{get?, insert, remove}
use versus_project_metaverse.Prelude.Totals.{total}
use versus_project_metaverse.Primitives.{native_token, token_eq}
use versus_project_metaverse.Economy.Types.{State}
use versus_project_metaverse.Economy.Innovation
use versus_project_metaverse.Economy.Shares
use versus_project_metaverse.Economy.Eras
use versus_project_metaverse.Economy.Calls
use versus_project_metaverse.Economy.Calls.{dispatch, Reach, here, next, called, new_block}
use versus_project_metaverse.Economy.Runtime.{runtime, empty}
use versus_project_metaverse.Economy.Rewards.Calls.{IsRewardSafe, Reach-IsRewardSafe}
use versus_project_metaverse.Economy.Rewards.Claims.{owed, paid, claim_rewards-paid}
use versus_project_metaverse.Economy.ShareTotals.{IsShared, remove_share-IsShared}
use versus_project_metaverse.Economy.EraLaws.{
  get_era_index_bounds, reward_of, update_current_era_lem,
}
use versus_project_metaverse.Economy.Tests.{run_call}

-- Account 5 stakes 200 on innovation, and an era has 10 blocks and a reward of 50. Block 25 is in
-- the third era.
abbrev pooled : State runtime
pooled = run_call (Calls.stake_on_innovation 5 200) empty

abbrev configured : State runtime
configured = run_call (Calls.update_era_config 0 none (some 10) (some 50)) pooled

abbrev third_era : State runtime
third_era =
    value_or configured
      (Eras.on_initialize runtime (record configured { block_number = 25; round = empty.round }))

abbrev claimed : State runtime
claimed = value_or third_era (Shares.claim_rewards runtime 5 third_era)

third_era_reward :
    (third_era.current_era ≡ 2)
    × (reward_of runtime (native_token 0) third_era.staking_reward_pool_info ≡ 100)
unfolding dispatch Innovation.stake_on_innovation Innovation.add_innovation Shares.add_share
    Shares.inflate Shares.add_inflations Eras.update_era_config Eras.on_initialize
    Eras.get_era_index Eras.update_current_era
    Eras.handle_reward_distribution_to_reward_pool_every_era Eras.era_reward Eras.accumulate_reward
    Shares.claim_rewards Shares.claim_each Shares.claim_one Shares.reward_to_withdraw
    Shares.reward_payout Shares.add_to get? insert remove
third_era_reward = (refl, refl)

claimed_reward : owed (native_token 0) 5 claimed.pending_rewards ≡ 100
unfolding dispatch Innovation.stake_on_innovation Innovation.add_innovation Shares.add_share
    Shares.inflate Shares.add_inflations Eras.update_era_config Eras.on_initialize
    Eras.get_era_index Eras.update_current_era
    Eras.handle_reward_distribution_to_reward_pool_every_era Eras.era_reward Eras.accumulate_reward
    Shares.claim_rewards Shares.claim_each Shares.claim_one Shares.reward_to_withdraw
    Shares.reward_payout Shares.add_to get? insert remove
claimed_reward = refl

claimed-Reach : Reach empty third_era
unfolding dispatch Innovation.stake_on_innovation Innovation.add_innovation Shares.add_share
    Shares.inflate Shares.add_inflations Eras.update_era_config Eras.on_initialize
    Eras.get_era_index Eras.update_current_era
    Eras.handle_reward_distribution_to_reward_pool_every_era Eras.era_reward Eras.accumulate_reward
    Shares.claim_rewards Shares.claim_each Shares.claim_one Shares.reward_to_withdraw
    Shares.reward_payout Shares.add_to get? insert remove
claimed-Reach =
    next
      (next (next here (called (Calls.stake_on_innovation 5 200) tt refl))
        (called (Calls.update_era_config 0 none (some 10) (some 50)) tt refl))
      (new_block 25 empty.round refl)

Reach-IsRewardSafe_example : IsRewardSafe third_era
Reach-IsRewardSafe_example = Reach-IsRewardSafe runtime claimed-Reach tt

claim_rewards-paid_example :
    owed (native_token 0) 5 claimed.pending_rewards
      + paid (native_token 0) third_era.staking_reward_pool_info
    ≤ owed (native_token 0) 5 third_era.pending_rewards
      + paid (native_token 0) claimed.staking_reward_pool_info
unfolding dispatch Innovation.stake_on_innovation Innovation.add_innovation Shares.add_share
    Shares.inflate Shares.add_inflations Eras.update_era_config Eras.on_initialize
    Eras.get_era_index Eras.update_current_era
    Eras.handle_reward_distribution_to_reward_pool_every_era Eras.era_reward Eras.accumulate_reward
    Shares.claim_rewards Shares.claim_each Shares.claim_one Shares.reward_to_withdraw
    Shares.reward_payout Shares.add_to get? insert remove
claim_rewards-paid_example =
    claim_rewards-paid runtime 5 (native_token 0) third_era claimed refl Reach-IsRewardSafe_example

third_era-IsShared : IsShared third_era
unfolding dispatch Innovation.stake_on_innovation Innovation.add_innovation Shares.add_share
    Shares.inflate Shares.add_inflations Eras.update_era_config Eras.on_initialize
    Eras.get_era_index Eras.update_current_era
    Eras.handle_reward_distribution_to_reward_pool_every_era Eras.era_reward Eras.accumulate_reward
    Shares.claim_rewards Shares.claim_each Shares.claim_one Shares.reward_to_withdraw
    Shares.reward_payout Shares.add_to Shares.reward_inflation total get? insert remove
third_era-IsShared = refl

-- Account 6 adds a share of 100 while the pool holds a reward of 100; account 5 takes 50 of 200.
abbrev joined : State runtime
joined = value_or third_era (Shares.add_share runtime 6 100 third_era)

abbrev reduced : State runtime
reduced = value_or third_era (Shares.remove_share runtime 5 50 third_era)

remove_share-IsShared_example : IsShared reduced
unfolding dispatch Innovation.stake_on_innovation Innovation.add_innovation Shares.add_share
    Shares.inflate Shares.add_inflations Eras.update_era_config Eras.on_initialize
    Eras.get_era_index Eras.update_current_era
    Eras.handle_reward_distribution_to_reward_pool_every_era Eras.era_reward Eras.accumulate_reward
    Shares.claim_rewards Shares.claim_each Shares.claim_one Shares.reward_to_withdraw
    Shares.reward_payout Shares.add_to Shares.remove_share Shares.remove_from Shares.shrink_pool
    Shares.remove_each Shares.drop_reward get? insert remove
remove_share-IsShared_example =
    remove_share-IsShared runtime 5 50 third_era reduced refl third_era-IsShared

get_era_index_bounds_example :
    (4 + Eras.era_index 25 4 10 * 10 ≤ 25) × (25 < 4 + (Eras.era_index 25 4 10 + 1) * 10)
get_era_index_bounds_example =
    get_era_index_bounds 25 4 10 (omega arith) (omega arith) (omega arith)

abbrev next_era : State runtime
next_era = value_or third_era (Eras.update_current_era runtime 1 third_era)

update_current_era_lem_example :
    (next_era.current_era ≡ 3)
    × (next_era.last_era_updated_block ≡ 25)
    × (reward_of runtime (native_token 0) next_era.staking_reward_pool_info
        ≡ min (100 + min (min (50 * 1) u128_max) 1000) u128_max)
unfolding dispatch Innovation.stake_on_innovation Innovation.add_innovation Shares.add_share
    Shares.inflate Shares.add_inflations Eras.update_era_config Eras.on_initialize
    Eras.get_era_index Eras.update_current_era
    Eras.handle_reward_distribution_to_reward_pool_every_era Eras.era_reward Eras.accumulate_reward
    Shares.claim_rewards Shares.claim_each Shares.claim_one Shares.reward_to_withdraw
    Shares.reward_payout Shares.add_to get? insert remove
update_current_era_lem_example =
    update_current_era_lem runtime 1 third_era next_era (omega arith) (omega arith)
      Reach-IsRewardSafe_example refl
