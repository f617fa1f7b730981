-- ===== src/Economy/Innovation.antt =====
-- pallets/economy/src/lib.rs: the calls on innovation staking.
use versus_project_metaverse.Prelude.{
  ◌-◌, not, ◌||◌, Option, none, some, List, [], ◌∷◌, ok, err, panic, overflow, ◌>>=◌, ◌>>◌, ensure,
  ok_or, leb, ◌==◌, if◌then◌else◌, nat_eq, pair_eq, u128_max, u32_max, checked_add, saturating_add,
}
use versus_project_metaverse.Prelude.Maps.{Map, get?, get_or, contains_key, insert, remove}
use versus_project_metaverse.Primitives.{
  AccountId, Balance, RoundIndex, FungibleTokenId, native_token,
}
use versus_project_metaverse.Economy.Types
use versus_project_metaverse.Economy.Types.{Result}
use versus_project_metaverse.Economy.Staking.{split_stake}
use versus_project_metaverse.Economy.Shares.{add_share, remove_share, claim_rewards}

-- What a payout leaves: the pending rewards, the ledger and the events.
pub record Payout (c : Types.Config) : Type 0 where
  pub pending : Map FungibleTokenId Balance
  pub ledger : c.Ledger
  pub events : List Types.Event

module _ (c : Types.Config) where
  -- The storage of the staker, its queue and the total, before the share is added.
  unfoldable pub add_innovation :
      AccountId → Balance → Balance → c.Ledger → Types.State c → Types.State c
  add_innovation who total amount ledger s = record s {
    ledger = ledger;
    innovation_staking_info = insert who total s.innovation_staking_info;
    total_innovation_staking = saturating_add u128_max s.total_innovation_staking amount;
  }

  unfoldable pub stake_on_innovation : c.Origin → Balance → Types.State c → Result (Types.State c)
  stake_on_innovation origin amount s = do
    who ← c.ensure_signed origin
    ensure (leb amount (c.free_balance who s.ledger)) Types.insufficient_balance_for_staking
    ensure (not (amount == 0) || leb c.minimum_stake amount) Types.stake_below_minimum
    ensure (not (contains_key (who, s.round.current) s.innovation_staking_exit_queue))
        Types.exit_queue_already_scheduled
    total ← ok_or (checked_add u128_max (get_or 0 who s.innovation_staking_info) amount) overflow
    ensure (leb c.minimum_stake total) Types.stake_below_minimum
    ledger ← c.reserve who amount s.ledger
    s' ← add_share c who amount (add_innovation who total amount ledger s)
    ok (Types.deposit_event (Types.staked_innovation who amount) s')

  unfoldable pub settle_innovation : AccountId → Balance → Balance → Types.State c → Types.State c
  settle_innovation who remaining to_unstake s = record s {
    innovation_staking_exit_queue =
        insert (who, saturating_add u32_max s.round.current 28) to_unstake
          s.innovation_staking_exit_queue;
    innovation_staking_info =
        if to_unstake == get_or 0 who s.innovation_staking_info
        then remove who s.innovation_staking_info
        else insert who remaining s.innovation_staking_info;
    total_innovation_staking = s.total_innovation_staking - to_unstake;
  }

  unfoldable pub unstake_on_innovation : c.Origin → Balance → Types.State c → Result (Types.State c)
  unstake_on_innovation origin amount s = do
    who ← c.ensure_signed origin
    (remaining, to_unstake) ←
        split_stake c.minimum_stake (get_or 0 who s.innovation_staking_info) amount
    let key : AccountId × RoundIndex = (who, saturating_add u32_max s.round.current 28)
    ensure (not (contains_key key s.innovation_staking_exit_queue))
        Types.exit_queue_already_scheduled
    s' ← remove_share c who to_unstake (settle_innovation who remaining to_unstake s)
    ok (Types.deposit_event (Types.unstaked_innovation who amount) s')

  -- `distribute_reward` of one entry: a transfer that fails leaves it pending.
  unfoldable pub pay_one :
      AccountId
      → Balance
      → c.Ledger
      → List Types.Event
      → Result c.Ledger
      → Result (Balance × c.Ledger × List Types.Event)
  pay_one who amount ledger events (ok ledger') =
      ok (0, ledger', Types.claimed_rewards who (native_token 0) amount ∷ events)
  pay_one who amount ledger events (err e) = ok (amount, ledger, events)
  pay_one who amount ledger events panic = panic

  unfoldable pub pay_entry :
      AccountId
      → FungibleTokenId
      → Balance
      → c.Ledger
      → List Types.Event
      → Result (Balance × c.Ledger × List Types.Event)
  unfolding pay_one
  pay_entry who currency amount ledger events =
      if amount == 0
      then ok (amount, ledger, events)
      else pay_one who amount ledger events
          (c.transfer currency c.reward_payout_account who amount ledger)

  -- The loop over the pending rewards.
  unfoldable pub pay_each :
      AccountId → Map FungibleTokenId Balance → c.Ledger → List Types.Event → Result (Payout c)
  pay_each who [] ledger events = ok (record { pending = []; ledger = ledger; events = events })
  pay_each who ((currency, amount) ∷ entries) ledger events = do
    (amount', ledger', events') ← pay_entry who currency amount ledger events
    p ← pay_each who entries ledger' events'
    ok (record p { pending = (currency, amount') ∷ p.pending })

  unfoldable pub pay_pending :
      AccountId → Option (Map FungibleTokenId Balance) → Types.State c → Result (Types.State c)
  pay_pending who none s = ok s
  pay_pending who (some pending) s = do
    p ← pay_each who pending s.ledger s.events
    ok (record s {
      pending_rewards = insert who p.pending s.pending_rewards;
      ledger = p.ledger;
      events = p.events;
    })

  unfoldable pub claim_reward : c.Origin → Types.State c → Result (Types.State c)
  claim_reward origin s = do
    who ← c.ensure_signed origin
    s' ← claim_rewards c who s
    pay_pending who (get? who s'.pending_rewards) s'
