-- ===== src/Economy/Solvency/Staking.antt =====
-- pallets/economy/src/lib.rs: staking and unstaking against the claims on the reserved balances.
use versus_project_metaverse.Prelude.{
  ◌+◌, ◌-◌, ◌≡◌, Option, none, some, ok, arith, nat_eq, pair_eq, Option-cases, inl, inr,
}
use versus_project_metaverse.Prelude.Maps.{get?, get_or}
use versus_project_metaverse.Prelude.Totals.{total-insert, total-remove}
use versus_project_metaverse.Primitives.{AccountId, Balance, RoundIndex, EstateId, Bond}
use versus_project_metaverse.Economy.Types
use versus_project_metaverse.Economy.Claims.{
  IsLedger, of_account, of_bond, of_exit, of_estate_exit, claims, IsSolvent,
}
use versus_project_metaverse.Economy.Staking.{
  next_round, stake_self, stake_estate, unstake_self, unstake_estate,
}
use versus_project_metaverse.Economy.Queues.{release_bond}

module _ (c : Types.Config) (laws : IsLedger c) where
  pub stake_self-IsSolvent :
      (who : AccountId) (amount : Balance) (s s' : Types.State c)
      → stake_self c who amount s ≡ ok s'
      → IsSolvent s
      → IsSolvent s'
  unfolding stake_self claims
  stake_self-IsSolvent who amount s s' e h x =
      let staked = get_or 0 who s.staking_info in
      ground (
        arith,
        h x,
        laws.reserve_reserved who x amount s.ledger s'.ledger,
        total-insert (of_account x) who (staked + amount) s.staking_info,
      )

  pub stake_estate-IsSolvent :
      (who : AccountId) (amount : Balance) (id : EstateId) (s s' : Types.State c)
      → stake_estate c who amount id s ≡ ok s'
      → IsSolvent s
      → IsSolvent s'
  unfolding stake_estate claims
  stake_estate-IsSolvent who amount id s s' e h x =
      elim (Option-cases (get? id s.estate_staking_info)) [
        | inl missing ↦ ground (
          arith,
          missing,
          h x,
          laws.reserve_reserved who x amount s.ledger s'.ledger,
          total-insert (of_bond x) id (record { staker = who; amount = amount })
              s.estate_staking_info,
        )
        | inr (bond, found) ↦ ground (
          arith,
          found,
          h x,
          laws.reserve_reserved who x amount s.ledger s'.ledger,
          total-insert (of_bond x) id (record { staker = who; amount = bond.amount + amount })
              s.estate_staking_info,
        )
      ]

  pub unstake_self-IsSolvent :
      (who : AccountId) (amount : Balance) (s s' : Types.State c)
      → unstake_self c who amount s ≡ ok s'
      → IsSolvent s
      → IsSolvent s'
  unfolding unstake_self claims
  unstake_self-IsSolvent who amount s s' e h x =
      let staked = get_or 0 who s.staking_info in
      let key : AccountId × RoundIndex = (who, next_round s.round.current) in
      ground (
        arith,
        h x,
        total-insert (of_account x) who (staked - amount) s.staking_info,
        total-remove (of_account x) who s.staking_info,
        total-insert (of_exit x) key staked s.exit_queue,
        total-insert (of_exit x) key amount s.exit_queue,
      )

  pub unstake_estate-IsSolvent :
      (who : AccountId) (amount : Balance) (id : EstateId) (s s' : Types.State c)
      → unstake_estate c who amount id s ≡ ok s'
      → IsSolvent s
      → IsSolvent s'
  unfolding unstake_estate claims
  unstake_estate-IsSolvent who amount id s s' e h x =
      let key : AccountId × (RoundIndex × EstateId) = (who, (next_round s.round.current, id)) in
      elim (Option-cases (get? id s.estate_staking_info)) [
        | inl missing ↦ ground (
          arith,
          missing,
          h x,
          total-insert (of_bond x) id (record { staker = who; amount = 0 - amount })
              s.estate_staking_info,
          total-remove (of_bond x) id s.estate_staking_info,
          total-insert (of_estate_exit x) key 0 s.estate_exit_queue,
          total-insert (of_estate_exit x) key amount s.estate_exit_queue,
        )
        | inr (bond, found) ↦ ground (
          arith,
          found,
          h x,
          total-insert (of_bond x) id (record { staker = who; amount = bond.amount - amount })
              s.estate_staking_info,
          total-remove (of_bond x) id s.estate_staking_info,
          total-insert (of_estate_exit x) key bond.amount s.estate_exit_queue,
          total-insert (of_estate_exit x) key amount s.estate_exit_queue,
        )
      ]

  pub release_bond-IsSolvent :
      (who : AccountId) (id : EstateId) (o : Option Bond) (s s' : Types.State c)
      → get? id s.estate_staking_info ≡ o
      → release_bond c who id o s ≡ ok s'
      → IsSolvent s
      → IsSolvent s'
  unfolding release_bond claims
  release_bond-IsSolvent who id none s s' missing e h x = absurd (ground arith)
  release_bond-IsSolvent who id (some bond) s s' found e h x =
      let key : AccountId × (RoundIndex × EstateId) =
        (bond.staker, (next_round s.round.current, id)) in
      ground (
        arith,
        h x,
        total-remove (of_bond x) id s.estate_staking_info,
        total-insert (of_estate_exit x) key bond.amount s.estate_exit_queue,
      )
