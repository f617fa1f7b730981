-- ===== src/Economy/Lifecycle.antt =====
-- pallets/economy/src/lib.rs: a stake on its way through the exit queue and out.
use versus_project_metaverse.Prelude.{
  ◌+◌, ◌-◌, ◌≤◌, ◌<◌, ◌≡◌, ◌↔◌, none, some, ok, err, module_error, arith, nat_eq, pair_eq,
  >>=-eq_ok, if◌then◌else◌, ltb,
}
use versus_project_metaverse.Prelude.Maps.{
  get?, get_or, remove, get?-insert_self, get?-remove_self, Distinct,
}
use versus_project_metaverse.Prelude.Totals.{held, total-insert, total-remove}
use versus_project_metaverse.Primitives.{
  AccountId, Balance, RoundIndex, EstateId, Bond, PowerAmount,
}
use versus_project_metaverse.Economy.Types.{Config, State}
use versus_project_metaverse.Economy.Types
use versus_project_metaverse.Economy.Claims.{IsLedger, of_bond, of_estate_exit, claims}
use versus_project_metaverse.Economy.Staking.{next_round, unstake_self}
use versus_project_metaverse.Economy.Queues.{
  release_bond, withdraw_unreserved, force_unreserved_staking,
}
use versus_project_metaverse.Economy.Power.{distribute_power_by_network}

-- What an unstaking takes out of a stake.
abbrev pub taken : Config → Balance → Balance → Balance
taken c staked amount = if ltb (staked - amount) c.minimum_stake then staked else amount

module _ (c : Config) where
  -- A successful `unstake` of a self stake takes `amount`, or the whole stake if less than the
  -- minimum would stay; it queues what it takes for the next round, where nothing was queued, and
  -- leaves the rest staked and the ledger as it was.
  pub unstake_self_lem :
      (who : AccountId) (amount : Balance) (s s' : State c)
      → Distinct s.staking_info
      → unstake_self c who amount s ≡ ok s'
      → let staked = get_or 0 who s.staking_info in
        let key : AccountId × RoundIndex = (who, next_round s.round.current) in
        (amount ≤ staked)
        × (get? key s.exit_queue ≡ none)
        × (get? key s'.exit_queue ≡ some (taken c staked amount))
        × (get_or 0 who s'.staking_info + taken c staked amount ≡ staked)
        × (s'.ledger ≡ s.ledger)
  unfolding unstake_self
  unstake_self_lem who amount s s' d e =
      let staked = get_or 0 who s.staking_info in
      let key : AccountId × RoundIndex = (who, next_round s.round.current) in
      ground (
        arith,
        get?-insert_self key staked s.exit_queue,
        get?-insert_self key amount s.exit_queue,
        get?-insert_self who (staked - amount) s.staking_info,
        get?-remove_self who s.staking_info d,
      )

  -- Nothing holds an unstaked amount back until its round: in the very state that a successful
  -- `unstake` of a self stake leaves, its staker withdraws it.
  pub withdraw-unstake_self :
      (o : c.Origin) (who : AccountId) (amount : Balance) (s s' : State c)
      → c.ensure_signed o ≡ ok who
      → unstake_self c who amount s ≡ ok s'
      → (t : State c) × (withdraw_unreserved c o (next_round s.round.current) s' ≡ ok t)
        × (t.ledger ≡ c.unreserve who (taken c (get_or 0 who s.staking_info) amount) s.ledger)
        × (t.round ≡ s.round)
  unfolding unstake_self withdraw_unreserved
  withdraw-unstake_self o who amount s s' signed e =
      let staked = get_or 0 who s.staking_info in
      let key : AccountId × RoundIndex = (who, next_round s.round.current) in
      (
        Types.deposit_event (Types.unstaked_amount_withdrew who (taken c staked amount))
            (record s' {
              exit_queue = remove key s'.exit_queue;
              ledger = c.unreserve who (taken c staked amount) s'.ledger;
            }),
        ground (
          arith,
          get?-insert_self key staked s.exit_queue,
          get?-insert_self key amount s.exit_queue,
        ),
        ground arith,
        ground arith,
      )

  -- An exit queue entry is paid out once: after a successful withdrawal of a round, a second one
  -- fails with `ExitQueueDoesNotExit`.
  pub withdraw_unreserved_twice :
      (o : c.Origin) (round : RoundIndex) (s s' : State c)
      → Distinct s.exit_queue
      → withdraw_unreserved c o round s ≡ ok s'
      → withdraw_unreserved c o round s' ≡ err (module_error Types.exit_queue_does_not_exit)
  unfolding withdraw_unreserved
  withdraw_unreserved_twice o round s s' d e =
      let (who, signed, _) = >>=-eq_ok (c.ensure_signed o) _ e in
      ground (arith, get?-remove_self (who, round) s.exit_queue d)

  -- When the new owner of an estate releases the bond of the staker, what the staker had already
  -- queued for the same round and estate is overwritten: the claims of every account fall by
  -- exactly its entry there, and the reserved balances stay.
  pub release_bond-claims :
      (who x : AccountId) (id : EstateId) (bond : Bond) (s s' : State c)
      → get? id s.estate_staking_info ≡ some bond
      → release_bond c who id (some bond) s ≡ ok s'
      → let key : AccountId × (RoundIndex × EstateId) =
          (bond.staker, (next_round s.round.current, id)) in
        (claims x s' + held (of_estate_exit x) key (get? key s.estate_exit_queue) ≡ claims x s)
        × (s'.ledger ≡ s.ledger)
  unfolding release_bond claims
  release_bond-claims who x id bond s s' found e =
      let key : AccountId × (RoundIndex × EstateId) =
        (bond.staker, (next_round s.round.current, id)) in
      ground (
        arith,
        total-remove (of_bond x) id s.estate_staking_info,
        total-insert (of_estate_exit x) key bond.amount s.estate_exit_queue,
      )

  -- Where the currency keeps the laws of reserved balances, a successful `force_unreserved_staking`
  -- for an account that has reserved no more than its claims leaves it with more claims than
  -- reserved balance.
  pub force_unreserved_staking_uncovers :
      IsLedger c
      → (o : c.Origin) (amount : Balance) (who : AccountId) (s s' : State c)
      → c.reserved_balance who s.ledger ≤ claims who s
      → force_unreserved_staking c o amount who s ≡ ok s'
      → c.reserved_balance who s'.ledger < claims who s'
  unfolding force_unreserved_staking claims
  force_unreserved_staking_uncovers laws o amount who s s' tight e =
      ground (arith, laws.unreserve_reserved who who amount s.ledger)

  -- `distribute_power_by_network` writes the amount in place of the sum that it checks: the power
  -- of the beneficiary grows by the amount exactly if it was zero before.
  pub distribute_power_by_network_adds :
      (amount : PowerAmount) (who : AccountId) (s s' : State c)
      → distribute_power_by_network c amount who s ≡ ok s'
      → (get_or 0 who s'.power_balance ≡ get_or 0 who s.power_balance + amount)
        ↔ (get_or 0 who s.power_balance ≡ 0)
  unfolding distribute_power_by_network
  distribute_power_by_network_adds amount who s s' e =
      ground (arith, get?-insert_self who amount s.power_balance)
