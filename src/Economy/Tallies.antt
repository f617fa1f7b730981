-- ===== src/Economy/Tallies.antt =====
-- pallets/economy/src/lib.rs: the stored totals against the sums of the stored stakes.
use versus_project_metaverse.Prelude.{
  ℕ, ◌+◌, ◌-◌, ◌≤◌, ◌≡◌, Option, none, some, ok, arith, nat_eq, pair_eq, u128_max, Option-cases,
  inl, inr,
}
use versus_project_metaverse.Prelude.Maps.{get?, get_or}
use versus_project_metaverse.Prelude.Totals.{total, total-insert, total-remove}
use versus_project_metaverse.Primitives.{AccountId, Balance, EstateId, Bond}
use versus_project_metaverse.Economy.Types.{Config, State}
use versus_project_metaverse.Economy.Staking.{
  stake_self, stake_estate, unstake_self, unstake_estate,
}
use versus_project_metaverse.Economy.Queues.{release_bond, force_unstake_self, force_unstake_estate}

abbrev pub staked : AccountId → Balance → ℕ
staked _ amount = amount

abbrev pub bond_amount : EstateId → Bond → ℕ
bond_amount _ bond = bond.amount

-- Each stored total is the sum of the stakes of its kind.
pub record IsTallied {c : Config} (s : State c) : Type 0 where
  pub self_total : s.total_stake ≡ total staked s.staking_info
  pub estate_total : s.total_estate_stake ≡ total bond_amount s.estate_staking_info
  pub innovation_total : s.total_innovation_staking ≡ total staked s.innovation_staking_info

module _ (c : Config) where
  pub stake_self-IsTallied :
      (who : AccountId) (amount : Balance) (s s' : State c)
      → total staked s.staking_info + amount ≤ u128_max
      → stake_self c who amount s ≡ ok s'
      → IsTallied s
      → IsTallied s'
  unfolding stake_self
  stake_self-IsTallied who amount s s' fits e h =
      let old = get_or 0 who s.staking_info in
      ground (arith, total-insert staked who (old + amount) s.staking_info)

  pub stake_estate-IsTallied :
      (who : AccountId) (amount : Balance) (id : EstateId) (s s' : State c)
      → total bond_amount s.estate_staking_info + amount ≤ u128_max
      → stake_estate c who amount id s ≡ ok s'
      → IsTallied s
      → IsTallied s'
  unfolding stake_estate
  stake_estate-IsTallied who amount id s s' fits e h =
      elim (Option-cases (get? id s.estate_staking_info)) [
        | inl missing ↦ ground (
          arith,
          missing,
          total-insert bond_amount id (record { staker = who; amount = amount })
              s.estate_staking_info,
        )
        | inr (bond, found) ↦ ground (
          arith,
          found,
          total-insert bond_amount id (record { staker = who; amount = bond.amount + amount })
              s.estate_staking_info,
        )
      ]

  pub unstake_self-IsTallied :
      (who : AccountId) (amount : Balance) (s s' : State c)
      → unstake_self c who amount s ≡ ok s'
      → IsTallied s
      → IsTallied s'
  unfolding unstake_self
  unstake_self-IsTallied who amount s s' e h =
      let old = get_or 0 who s.staking_info in
      ground (
        arith,
        total-insert staked who (old - amount) s.staking_info,
        total-remove staked who s.staking_info,
      )

  pub force_unstake_self-IsTallied :
      (who : AccountId) (amount : Balance) (s s' : State c)
      → force_unstake_self c who amount s ≡ ok s'
      → IsTallied s
      → IsTallied s'
  unfolding force_unstake_self
  force_unstake_self-IsTallied who amount s s' e h =
      let old = get_or 0 who s.staking_info in
      ground (
        arith,
        total-insert staked who (old - amount) s.staking_info,
        total-remove staked who s.staking_info,
      )

  pub unstake_estate-IsTallied :
      (who : AccountId) (amount : Balance) (id : EstateId) (s s' : State c)
      → unstake_estate c who amount id s ≡ ok s'
      → IsTallied s
      → IsTallied s'
  unfolding unstake_estate
  unstake_estate-IsTallied who amount id s s' e h =
      elim (Option-cases (get? id s.estate_staking_info)) [
        | inl missing ↦ ground (
          arith,
          missing,
          total-insert bond_amount id (record { staker = who; amount = 0 - amount })
              s.estate_staking_info,
          total-remove bond_amount id s.estate_staking_info,
        )
        | inr (bond, found) ↦ ground (
          arith,
          found,
          total-insert bond_amount id (record { staker = who; amount = bond.amount - amount })
              s.estate_staking_info,
          total-remove bond_amount id s.estate_staking_info,
        )
      ]

  pub release_bond-IsTallied :
      (who : AccountId) (id : EstateId) (o : Option Bond) (s s' : State c)
      → get? id s.estate_staking_info ≡ o
      → release_bond c who id o s ≡ ok s'
      → IsTallied s
      → IsTallied s'
  unfolding release_bond
  release_bond-IsTallied who id none s s' missing e h = absurd (ground arith)
  release_bond-IsTallied who id (some bond) s s' found e h =
      ground (arith, total-remove bond_amount id s.estate_staking_info)

  -- `force_unstake` on an estate writes the self stakes' total, less what leaves the bonds, in
  -- place of the estate stakes' total.
  pub force_unstake_estate-total :
      (who : AccountId) (amount : Balance) (id : EstateId) (s s' : State c)
      → force_unstake_estate c who amount id s ≡ ok s'
      → (total bond_amount s'.estate_staking_info ≤ total bond_amount s.estate_staking_info)
        × (s'.total_estate_stake
            ≡ s.total_stake
              - (total bond_amount s.estate_staking_info
                  - total bond_amount s'.estate_staking_info))
  unfolding force_unstake_estate
  force_unstake_estate-total who amount id s s' e =
      elim (Option-cases (get? id s.estate_staking_info)) [
        | inl missing ↦ ground (
          arith,
          missing,
          total-insert bond_amount id (record { staker = who; amount = 0 - amount })
              s.estate_staking_info,
          total-remove bond_amount id s.estate_staking_info,
        )
        | inr (bond, found) ↦ ground (
          arith,
          found,
          total-insert bond_amount id (record { staker = who; amount = bond.amount - amount })
              s.estate_staking_info,
          total-remove bond_amount id s.estate_staking_info,
        )
      ]
