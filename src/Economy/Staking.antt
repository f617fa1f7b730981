-- ===== src/Economy/Staking.antt =====
-- pallets/economy/src/lib.rs: the calls on self staking and estate staking. Each returns the state
-- that it leaves; a call that fails or panics leaves the storage as it was.
use versus_project_metaverse.Prelude.{
  ◌-◌, not, Option, none, some, ok, overflow, underflow, ◌>>=◌, ◌>>◌, ensure, ok_or, ltb, leb, ◌==◌,
  if◌then◌else◌, nat_eq, pair_eq, u128_max, u32_max, checked_add, checked_sub, saturating_add,
  saturating_mul,
}
use versus_project_metaverse.Prelude.Maps.{get?, get_or, contains_key, insert, remove}
use versus_project_metaverse.Primitives.{AccountId, Balance, RoundIndex, EstateId, Bond}
use versus_project_metaverse.Economy.Types

-- What remains of a stake, and what leaves it: all of it, if the rest would be below the minimum.
unfoldable pub split_stake : Balance → Balance → Balance → Types.Result (Balance × Balance)
split_stake minimum_stake staked_balance amount = do
  ensure (leb amount staked_balance) Types.unstake_amount_exceed_staked_amount
  remaining ← ok_or (checked_sub staked_balance amount) underflow
  ok (remaining, if ltb remaining minimum_stake then staked_balance else amount)

-- The amount of an estate's bond, which must be `who`'s own.
unfoldable pub bonded : AccountId → Types.Error → Option Bond → Types.Result Balance
bonded who e none = ok 0
bonded who e (some bond) = do ensure (bond.staker == who) e; ok bond.amount

unfoldable pub next_round : RoundIndex → RoundIndex
next_round current = saturating_add u32_max current 1

module _ (c : Types.Config) where
  unfoldable pub stake_self : AccountId → Balance → Types.State c → Types.Result (Types.State c)
  stake_self who amount s = do
    ensure (not (contains_key (who, s.round.current) s.exit_queue))
        Types.exit_queue_already_scheduled
    total ← ok_or (checked_add u128_max (get_or 0 who s.staking_info) amount) overflow
    ensure (leb c.minimum_stake total) Types.stake_below_minimum
    ledger ← c.reserve who amount s.ledger
    ok (
        Types.deposit_event (Types.self_staked_to_economy101 who amount) (record s {
          ledger = ledger;
          staking_info = insert who total s.staking_info;
          total_stake = saturating_add u128_max s.total_stake amount;
        }))

  unfoldable pub stake_estate :
      AccountId → Balance → EstateId → Types.State c → Types.Result (Types.State c)
  unfolding bonded
  stake_estate who amount estate_id s = do
    ensure (not (contains_key (who, (s.round.current, estate_id)) s.estate_exit_queue))
        Types.estate_exit_queue_already_scheduled
    exists ← c.check_estate estate_id s.estates
    ensure exists Types.stake_estate_does_not_exist
    owned ← c.check_estate_ownership who estate_id s.estates
    ensure owned Types.staker_not_estate_owner
    staked_balance ←
        bonded who Types.previous_owner_still_stakes_at_estate
          (get? estate_id s.estate_staking_info)
    total ← ok_or (checked_add u128_max staked_balance amount) overflow
    ensure (leb c.minimum_stake total) Types.stake_below_minimum
    let total_land_units = c.get_total_land_units (some estate_id) s.estates
    ensure (ltb 0 total_land_units) Types.stake_estate_does_not_exist
    ensure (leb total (saturating_mul u128_max c.maximum_estate_stake total_land_units))
        Types.stake_amount_exceed_maximum_amount
    ledger ← c.reserve who amount s.ledger
    ok (
        Types.deposit_event (Types.estate_staked_to_economy101 who estate_id amount) (record s {
          ledger = ledger;
          estate_staking_info =
              insert estate_id (record { staker = who; amount = total }) s.estate_staking_info;
          total_estate_stake = saturating_add u128_max s.total_estate_stake amount;
        }))

  unfoldable pub stake :
      c.Origin → Balance → Option EstateId → Types.State c → Types.Result (Types.State c)
  stake origin amount estate s = do
    who ← c.ensure_signed origin
    ensure (leb amount (c.free_balance who s.ledger)) Types.insufficient_balance_for_staking
    elim estate [ none ↦ stake_self who amount s | some id ↦ stake_estate who amount id s ]

  -- The storage of the staker after `to_unstake` left the stake.
  unfoldable pub settle_self : AccountId → Balance → Balance → Types.State c → Types.State c
  settle_self who remaining to_unstake s = record s {
    staking_info =
        if to_unstake == get_or 0 who s.staking_info
        then remove who s.staking_info
        else insert who remaining s.staking_info;
    total_stake = s.total_stake - to_unstake;
  }

  unfoldable pub settle_estate :
      AccountId → EstateId → Balance → Balance → Balance → Balance → Types.State c → Types.State c
  settle_estate who estate_id staked_balance remaining to_unstake total_stake s = record s {
    estate_staking_info =
        if to_unstake == staked_balance
        then remove estate_id s.estate_staking_info
        else insert estate_id (record { staker = who; amount = remaining }) s.estate_staking_info;
    total_estate_stake = total_stake - to_unstake;
  }

  unfoldable pub unstake_self : AccountId → Balance → Types.State c → Types.Result (Types.State c)
  unfolding split_stake next_round settle_self
  unstake_self who amount s = do
    (remaining, to_unstake) ← split_stake c.minimum_stake (get_or 0 who s.staking_info) amount
    let key : AccountId × RoundIndex = (who, next_round s.round.current)
    ensure (not (contains_key key s.exit_queue)) Types.exit_queue_already_scheduled
    ok (
        Types.deposit_event (Types.self_staking_removed_from_economy101 who amount)
          (record (settle_self who remaining to_unstake s) {
            exit_queue = insert key to_unstake s.exit_queue;
          }))

  unfoldable pub unstake_estate :
      AccountId → Balance → EstateId → Types.State c → Types.Result (Types.State c)
  unfolding split_stake next_round bonded settle_estate
  unstake_estate who amount estate_id s = do
    exists ← c.check_estate estate_id s.estates
    ensure exists Types.stake_estate_does_not_exist
    staked_balance ←
        bonded who Types.no_funds_staked_at_estate (get? estate_id s.estate_staking_info)
    (remaining, to_unstake) ← split_stake c.minimum_stake staked_balance amount
    let key : AccountId × (RoundIndex × EstateId) = (who, (next_round s.round.current, estate_id))
    ensure (not (contains_key key s.estate_exit_queue)) Types.exit_queue_already_scheduled
    ok (
        Types.deposit_event (Types.estate_staking_removed_from_economy101 who estate_id amount)
          (record (settle_estate who estate_id staked_balance remaining to_unstake
            s.total_estate_stake s) {
              estate_exit_queue = insert key to_unstake s.estate_exit_queue;
            }))

  unfoldable pub unstake :
      c.Origin → Balance → Option EstateId → Types.State c → Types.Result (Types.State c)
  unstake origin amount estate s = do
    who ← c.ensure_signed origin
    ensure (not (amount == 0)) Types.unstake_amount_is_zero
    elim estate [ none ↦ unstake_self who amount s | some id ↦ unstake_estate who amount id s ]
