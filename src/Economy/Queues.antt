-- ===== src/Economy/Queues.antt =====
-- pallets/economy/src/lib.rs: the calls that empty the exit queues, and those of the root origin
-- on staking.
use versus_project_metaverse.Prelude.{
  ◌-◌, not, Option, none, some, ok, module_error, ◌>>=◌, ◌>>◌, ensure, ok_or, leb, ◌==◌, nat_eq,
  pair_eq,
}
use versus_project_metaverse.Prelude.Maps.{get?, get_or, insert, remove}
use versus_project_metaverse.Primitives.{AccountId, Balance, RoundIndex, EstateId, Bond}
use versus_project_metaverse.Economy.Types
use versus_project_metaverse.Economy.Staking.{
  split_stake, bonded, next_round, settle_self, settle_estate,
}

module _ (c : Types.Config) where
  -- The bond of another staker leaves the estate.
  unfoldable pub release_bond :
      AccountId → EstateId → Option Bond → Types.State c → Types.Result (Types.State c)
  unfolding next_round
  release_bond who estate_id none s = Types.fail Types.stake_estate_does_not_exist
  release_bond who estate_id (some bond) s = do
    ensure (not (bond.staker == who)) Types.staker_not_previous_owner
    let key : AccountId × (RoundIndex × EstateId) =
        (bond.staker, (next_round s.round.current, estate_id))
    ok (
        Types.deposit_event (Types.estate_staking_removed_from_economy101 who estate_id bond.amount)
          (record s {
            estate_exit_queue = insert key bond.amount s.estate_exit_queue;
            estate_staking_info = remove estate_id s.estate_staking_info;
            total_estate_stake = s.total_estate_stake - bond.amount;
          }))

  unfoldable pub unstake_new_estate_owner :
      c.Origin → EstateId → Types.State c → Types.Result (Types.State c)
  unstake_new_estate_owner origin estate_id s = do
    who ← c.ensure_signed origin
    exists ← c.check_estate estate_id s.estates
    ensure exists Types.stake_estate_does_not_exist
    owned ← c.check_estate_ownership who estate_id s.estates
    ensure owned Types.staker_not_estate_owner
    release_bond who estate_id (get? estate_id s.estate_staking_info) s

  unfoldable pub withdraw_unreserved :
      c.Origin → RoundIndex → Types.State c → Types.Result (Types.State c)
  withdraw_unreserved origin round_index s = do
    who ← c.ensure_signed origin
    exit_balance ←
        ok_or (get? (who, round_index) s.exit_queue) (module_error Types.exit_queue_does_not_exit)
    ok (
        Types.deposit_event (Types.unstaked_amount_withdrew who exit_balance) (record s {
          exit_queue = remove (who, round_index) s.exit_queue;
          ledger = c.unreserve who exit_balance s.ledger;
        }))

  unfoldable pub withdraw_estate_unreserved :
      c.Origin → RoundIndex → EstateId → Types.State c → Types.Result (Types.State c)
  withdraw_estate_unreserved origin round_index estate_id s = do
    who ← c.ensure_signed origin
    let key : AccountId × (RoundIndex × EstateId) = (who, (round_index, estate_id))
    exit_balance ←
        ok_or (get? key s.estate_exit_queue) (module_error Types.estate_exit_queue_does_not_exit)
    ok (
        Types.deposit_event (Types.unstaked_amount_withdrew who exit_balance) (record s {
          estate_exit_queue = remove key s.estate_exit_queue;
          ledger = c.unreserve who exit_balance s.ledger;
        }))

  unfoldable pub force_unstake_self :
      AccountId → Balance → Types.State c → Types.Result (Types.State c)
  unfolding split_stake settle_self
  force_unstake_self who amount s = do
    (remaining, to_unstake) ← split_stake c.minimum_stake (get_or 0 who s.staking_info) amount
    ok (
        Types.deposit_event (Types.self_staking_removed_from_economy101 who amount) (
          Types.deposit_event (Types.unstaked_amount_withdrew who to_unstake)
            (record (settle_self c who remaining to_unstake s) {
              ledger = c.unreserve who to_unstake s.ledger;
            })))

  -- The new total of the estate stakes is taken from the total of the self stakes.
  unfoldable pub force_unstake_estate :
      AccountId → Balance → EstateId → Types.State c → Types.Result (Types.State c)
  unfolding split_stake bonded settle_estate
  force_unstake_estate who amount estate_id s = do
    exists ← c.check_estate estate_id s.estates
    ensure exists Types.stake_estate_does_not_exist
    staked_balance ←
        bonded who Types.no_funds_staked_at_estate (get? estate_id s.estate_staking_info)
    (remaining, to_unstake) ← split_stake c.minimum_stake staked_balance amount
    ok (
        Types.deposit_event (Types.estate_staking_removed_from_economy101 who estate_id amount) (
          Types.deposit_event (Types.unstaked_amount_withdrew who to_unstake)
            (record (settle_estate c who estate_id staked_balance remaining to_unstake s.total_stake
              s) { ledger = c.unreserve who to_unstake s.ledger })))

  unfoldable pub force_unstake :
      c.Origin
      → Balance
      → AccountId
      → Option EstateId
      → Types.State c
      → Types.Result (Types.State c)
  force_unstake origin amount who estate s = do
    c.ensure_root origin
    ensure (not (amount == 0)) Types.unstake_amount_is_zero
    elim estate [
      | none ↦ force_unstake_self who amount s
      | some id ↦ force_unstake_estate who amount id s
    ]

  unfoldable pub force_unreserved_staking :
      c.Origin → Balance → AccountId → Types.State c → Types.Result (Types.State c)
  force_unreserved_staking origin amount who s = do
    c.ensure_root origin
    ensure (not (amount == 0)) Types.unstake_amount_is_zero
    ensure (leb amount (c.reserved_balance who s.ledger)) Types.unstake_amount_exceed_staked_amount
    ok (record s { ledger = c.unreserve who amount s.ledger })
