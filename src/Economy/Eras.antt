-- ===== src/Economy/Eras.antt =====
-- pallets/economy/src/lib.rs: the eras of innovation staking, and the reward of each.
use versus_project_metaverse.Prelude.{
  ◌-◌, ◌&&◌, not, Option, none, some, ok, err, panic, module_error, ◌>>=◌, ◌>>◌, ensure, ok_or, leb,
  ltb, ◌==◌, if◌then◌else◌, nat_eq, u128_max, u32_max, checked_sub, checked_div, saturating_add,
  saturating_mul,
}
use versus_project_metaverse.Prelude.Maps.{get?, insert}
use versus_project_metaverse.Primitives.{
  Balance, BlockNumber, EraIndex, FungibleTokenId, native_token, token_eq,
}
use versus_project_metaverse.Economy.Types
use versus_project_metaverse.Economy.Types.{Result}

-- The eras from `last_era_updated_block` to `block_number`, and 0 where a step has no result.
unfoldable pub era_index : BlockNumber → BlockNumber → BlockNumber → EraIndex
era_index block_number last_era_updated_block update_era_frequency =
    elim (checked_sub block_number last_era_updated_block) [
      | none ↦ 0
      | some n ↦ elim (checked_div n update_era_frequency) [
        | none ↦ 0
        | some era ↦ if leb era u32_max then era else 0
      ]
    ]

-- The entry of a currency after an increment of its total.
unfoldable pub incremented : Balance → Option (Balance × Balance) → Balance × Balance
incremented increment none = (increment, 0)
incremented increment (some (total_reward, total_withdrawn)) =
    (saturating_add u128_max total_reward increment, total_withdrawn)

module _ (c : Types.Config) where
  unfoldable pub get_era_index : BlockNumber → Types.State c → EraIndex
  unfolding era_index
  get_era_index block_number s =
      era_index block_number s.last_era_updated_block s.update_era_frequency

  unfoldable pub accumulate_reward :
      FungibleTokenId → Balance → Types.State c → Result (Types.State c)
  unfolding incremented
  accumulate_reward reward_currency reward_increment s = if reward_increment == 0 then ok s else do
    pool ← ok_or s.staking_reward_pool_info (module_error Types.reward_pool_does_not_exist)
    let entry = incremented reward_increment (get? reward_currency pool.rewards)
    ok (record s {
      staking_reward_pool_info =
          some (record pool { rewards = insert reward_currency entry pool.rewards });
    })

  -- The reward of an era change, which the balance of the payout account bounds.
  unfoldable pub era_reward : EraIndex → Balance → Types.State c → Balance
  era_reward era_changes reward_holding_balance s =
      let total_reward = saturating_mul u128_max s.estimated_staking_reward_per_era era_changes in
      if ltb reward_holding_balance total_reward then reward_holding_balance else total_reward

  unfoldable pub handle_reward_distribution_to_reward_pool_every_era :
      EraIndex → EraIndex → Types.State c → Result (Types.State c)
  handle_reward_distribution_to_reward_pool_every_era previous_era new_era s =
      let era_changes = new_era - previous_era in
      let reward_holding_balance = c.free_balance c.reward_payout_account s.ledger in
      do
        ensure (not (era_changes == 0)) Types.unexpected
        (if reward_holding_balance == 0
            then ok s
            else accumulate_reward (native_token 0)
                (era_reward era_changes reward_holding_balance s) s)

  unfoldable pub update_current_era : EraIndex → Types.State c → Result (Types.State c)
  update_current_era index s =
      let new_era = saturating_add u32_max s.current_era index in
      do
        s' ← handle_reward_distribution_to_reward_pool_every_era s.current_era new_era s
        ok (
            Types.deposit_event (Types.current_innovation_staking_era_updated new_era)
              (record s' { current_era = new_era; last_era_updated_block = s.block_number }))

  -- The update is a transaction of its own, whose error is dropped.
  unfoldable pub caught : Types.State c → Result (Types.State c) → Result (Types.State c)
  caught s (ok s') = ok s'
  caught s (err e) = ok s
  caught s panic = panic

  unfoldable pub on_initialize : Types.State c → Result (Types.State c)
  unfolding caught
  on_initialize s =
      let era_number = get_era_index s.block_number s in
      if not (era_number == 0) then caught s (update_current_era era_number s) else ok s

  unfoldable pub put_frequency : Option BlockNumber → Types.State c → Types.State c
  put_frequency none s = s
  put_frequency (some change) s =
      Types.deposit_event (Types.updated_innovation_staking_era_frequency change)
        (record s { update_era_frequency = change })

  unfoldable pub put_last_era : Option BlockNumber → Types.State c → Result (Types.State c)
  put_last_era none s = ok s
  put_last_era (some change) s = if s.update_era_frequency == 0 then ok s else do
    ensure (ltb (s.block_number - s.update_era_frequency) change && leb change s.block_number)
        Types.invalid_last_era_updated_block
    ok (
        Types.deposit_event (Types.last_innovation_staking_era_updated change)
          (record s { last_era_updated_block = change }))

  unfoldable pub put_reward_per_era : Option Balance → Types.State c → Types.State c
  put_reward_per_era none s = s
  put_reward_per_era (some reward_rate_per_era) s =
      Types.deposit_event (Types.estimated_reward_per_era_updated reward_rate_per_era)
        (record s { estimated_staking_reward_per_era = reward_rate_per_era })

  unfoldable pub update_era_config :
      c.Origin
      → Option BlockNumber
      → Option BlockNumber
      → Option Balance
      → Types.State c
      → Result (Types.State c)
  unfolding put_frequency put_last_era put_reward_per_era
  update_era_config origin last_era_updated_block frequency reward_rate_per_era s = do
    c.ensure_root origin
    s' ← put_last_era last_era_updated_block (put_frequency frequency s)
    ok (put_reward_per_era reward_rate_per_era s')
