-- ===== src/Mining/Rounds.antt =====
-- pallets/mining/src/lib.rs and mining.rs: the rounds, their length and what each issues.
use versus_project_metaverse.Prelude.{
  ◌/◌, true, false, not, ◌&&◌, ok, err, panic, ◌>>=◌, ◌>>◌, ensure, leb, ◌==◌, if◌then◌else◌, min,
  u32_max, ℕ,
}
use versus_project_metaverse.Primitives.{
  Balance, BlockNumber, RoundInfo, MiningRange, Perbill, MiningResourceRateInfo, mining_resource,
  should_update, update,
}
use versus_project_metaverse.Mining.Types
use versus_project_metaverse.Mining.Types.{Config, State, Result}

abbrev pub seconds_per_year : ℕ
seconds_per_year = 31557600

abbrev pub seconds_per_block : ℕ
seconds_per_block = 12

abbrev pub blocks_per_year : ℕ
blocks_per_year = seconds_per_year / seconds_per_block

-- A division by a round length of zero panics.
unfoldable pub rounds_per_year : RoundInfo → Result Balance
rounds_per_year round = if round.length == 0 then panic else ok (blocks_per_year / round.length)

module _ (c : Config) where
  unfoldable pub convert_annual_to_round : Perbill → State c → Result Perbill
  unfolding rounds_per_year
  convert_annual_to_round annual s = do
    rounds ← rounds_per_year s.round
    c.perbill_div annual rounds

  unfoldable pub round_issuance_range : MiningResourceRateInfo → State c → Result MiningRange
  unfolding convert_annual_to_round
  round_issuance_range config s = do
    rate_per_round ← convert_annual_to_round config.rate s
    let issuance_per_round =
        c.of_perbill rate_per_round (c.total_issuance (mining_resource 0) s.ledger)
    ok (record {
      min = issuance_per_round;
      ideal = issuance_per_round;
      max = issuance_per_round;
      staking_allocation = c.of_perbill config.staking_reward issuance_per_round;
      mining_allocation = c.of_perbill config.mining_reward issuance_per_round;
    })

  unfoldable pub treasury_reward : MiningRange → State c → Result c.Ledger
  treasury_reward allocation_range s =
      c.deposit c.bit_mining_resource_id c.bit_mining_treasury
        (c.of_perbill c.treasury_staking_reward allocation_range.ideal) s.ledger

  -- The ledger after a deposit whose error is dropped.
  unfoldable pub rewarded : c.Ledger → Result c.Ledger → Result c.Ledger
  rewarded l (ok l') = ok l'
  rewarded l (err e) = ok l
  rewarded l panic = panic

  -- The body of `on_initialize` where a round is due.
  unfoldable pub new_round : BlockNumber → State c → Result (State c)
  unfolding rewarded treasury_reward
  new_round n s = do
    allocation_range ← round_issuance_range s.mining_config s
    ledger ← rewarded s.ledger (treasury_reward allocation_range s)
    let round = update s.round n
    ok (
        Types.deposit_event (Types.new_mining_round round.current allocation_range) (record s {
          round = round;
          current_mining_resource_allocation = allocation_range;
          ledger = ledger;
        }))

  unfoldable pub on_initialize : BlockNumber → State c → Result (State c)
  on_initialize n s = if should_update s.round n && not s.mining_paused then new_round n s else ok s

  -- The length is never below zero, so the test passes for every length.
  unfoldable pub update_round_length : c.Origin → BlockNumber → State c → Result (State c)
  update_round_length origin length s = do
    c.ensure_root origin
    ensure (leb 0 length) Types.amount_zero
    ok (
        Types.deposit_event (Types.round_length_updated length)
          (record s { round = record (s.round) { length = min length u32_max } }))

  unfoldable pub update_mining_issuance_config :
      c.Origin → MiningResourceRateInfo → State c → Result (State c)
  update_mining_issuance_config origin config s = do
    _ ← c.ensure_admin origin
    ensure (not (should_update s.round s.block_number)) Types.round_update_is_on_progress
    ok (
        Types.deposit_event (Types.mining_config_updated s.block_number config)
          (record s { mining_config = config }))

  unfoldable pub pause_mining_round : c.Origin → State c → Result (State c)
  pause_mining_round origin s = do
    c.ensure_root origin
    ensure (not s.mining_paused) Types.mining_round_already_paused
    ok (
        Types.deposit_event (Types.mining_round_paused s.block_number s.round.current)
          (record s { mining_paused = true }))

  unfoldable pub unpause_mining_round : c.Origin → State c → Result (State c)
  unpause_mining_round origin s = do
    c.ensure_root origin
    ensure s.mining_paused Types.mining_round_is_not_paused
    ok (
        Types.deposit_event (Types.mining_round_unpaused s.block_number s.round.current)
          (record s { mining_paused = false }))
