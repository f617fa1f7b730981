-- ===== src/Economy/Power.antt =====
-- pallets/economy/src/lib.rs: the exchange of power, which no call uses any more.
use versus_project_metaverse.Prelude.{
  ◌+◌, ◌%◌, ◌^◌, Bool, ok, overflow, ◌>>=◌, ok_or, leb, ◌==◌, if◌then◌else◌, nat_eq, unwrap_or,
  u64_max, u32_max, u128_max, checked_add, checked_mul, checked_div,
}
use versus_project_metaverse.Prelude.Maps.{get_or, insert}
use versus_project_metaverse.Primitives.{AccountId, Balance, BlockNumber, PowerAmount}
use versus_project_metaverse.Economy.Types
use versus_project_metaverse.Economy.Types.{Result}

module _ (c : Types.Config) where
  -- `commission` is the multiplication by the `Perbill` of that name.
  unfoldable pub convert_power_to_bit :
      Balance → (Balance → Balance) → Types.State c → Balance × Balance
  convert_power_to_bit power_amount commission s =
      let bit_required =
        unwrap_or 0 (checked_mul u128_max power_amount s.bit_power_exchange_rate) in
      let commission_fee = commission bit_required in
      ((bit_required + commission_fee) % 2 ^ 128, commission_fee)

  unfoldable pub do_burn : AccountId → Balance → Types.State c → Result (Types.State c)
  do_burn who amount s =
      if amount == 0 then ok s else ok (Types.deposit_event (Types.mining_resource_burned amount) s)

  -- The sum is checked, and the amount alone is written.
  unfoldable pub distribute_power_by_network :
      PowerAmount → AccountId → Types.State c → Result (Types.State c)
  distribute_power_by_network power_amount beneficiary s = do
    distributor_power_balance ←
        ok_or (checked_add u64_max (get_or 0 beneficiary s.power_balance) power_amount) overflow
    ok (record s { power_balance = insert beneficiary power_amount s.power_balance })

  unfoldable pub get_target_execution_order : PowerAmount → Types.State c → Result BlockNumber
  get_target_execution_order power_amount s =
      if leb power_amount c.power_amount_per_block
      then ok_or (checked_add u32_max s.block_number 1) overflow
      else do
        block_required ← ok_or (checked_div power_amount c.power_amount_per_block) overflow
        ok_or
            (checked_add u32_max s.block_number
              (if leb block_required u32_max then block_required else 0))
            overflow

  unfoldable pub check_target_execution : BlockNumber → Types.State c → Bool
  check_target_execution target s = leb target s.block_number
