-- ===== src/Economy/Solvency/Queues.antt =====
-- pallets/economy/src/lib.rs: withdrawals and forced unstaking against the claims on the reserved
-- balances.
use versus_project_metaverse.Prelude.{
  ◌-◌, ◌≡◌, ok, arith, nat_eq, pair_eq, Option-cases, >>=-eq_ok, inl, inr,
}
use versus_project_metaverse.Prelude.Maps.{get?, get_or}
use versus_project_metaverse.Prelude.Totals.{total-insert, total-remove}
use versus_project_metaverse.Primitives.{AccountId, Balance, RoundIndex, EstateId}
use versus_project_metaverse.Economy.Types
use versus_project_metaverse.Economy.Claims.{
  IsLedger, of_account, of_bond, of_exit, of_estate_exit, claims, IsSolvent,
}
use versus_project_metaverse.Economy.Queues.{
  withdraw_unreserved, withdraw_estate_unreserved, force_unstake_self, force_unstake_estate,
}

module _ (c : Types.Config) (laws : IsLedger c) where
  pub withdraw_unreserved-IsSolvent :
      (o : c.Origin) (round : RoundIndex) (s s' : Types.State c)
      → withdraw_unreserved c o round s ≡ ok s'
      → IsSolvent s
      → IsSolvent s'
  unfolding withdraw_unreserved claims
  withdraw_unreserved-IsSolvent o round s s' e h x =
      let (who, signed, e') = >>=-eq_ok (c.ensure_signed o) _ e in
      elim (Option-cases (get? (who, round) s.exit_queue)) [
        | inl missing ↦ ground arith
        | inr (a, found) ↦ ground (
          arith,
          found,
          h x,
          laws.unreserve_reserved who x a s.ledger,
          total-remove (of_exit x) (who, round) s.exit_queue,
        )
      ]

  pub withdraw_estate_unreserved-IsSolvent :
      (o : c.Origin) (round : RoundIndex) (id : EstateId) (s s' : Types.State c)
      → withdraw_estate_unreserved c o round id s ≡ ok s'
      → IsSolvent s
      → IsSolvent s'
  unfolding withdraw_estate_unreserved claims
  withdraw_estate_unreserved-IsSolvent o round id s s' e h x =
      let (who, signed, e') = >>=-eq_ok (c.ensure_signed o) _ e in
      elim (Option-cases (get? (who, (round, id)) s.estate_exit_queue)) [
        | inl missing ↦ ground arith
        | inr (a, found) ↦ ground (
          arith,
          found,
          h x,
          laws.unreserve_reserved who x a s.ledger,
          total-remove (of_estate_exit x) (who, (round, id)) s.estate_exit_queue,
        )
      ]

  pub force_unstake_self-IsSolvent :
      (who : AccountId) (amount : Balance) (s s' : Types.State c)
      → force_unstake_self c who amount s ≡ ok s'
      → IsSolvent s
      → IsSolvent s'
  unfolding force_unstake_self claims
  force_unstake_self-IsSolvent who amount s s' e h x =
      let staked = get_or 0 who s.staking_info in
      ground (
        arith,
        h x,
        laws.unreserve_reserved who x amount s.ledger,
        laws.unreserve_reserved who x staked s.ledger,
        total-insert (of_account x) who (staked - amount) s.staking_info,
        total-remove (of_account x) who s.staking_info,
      )

  pub force_unstake_estate-IsSolvent :
      (who : AccountId) (amount : Balance) (id : EstateId) (s s' : Types.State c)
      → force_unstake_estate c who amount id s ≡ ok s'
      → IsSolvent s
      → IsSolvent s'
  unfolding force_unstake_estate claims
  force_unstake_estate-IsSolvent who amount id s s' e h x =
      elim (Option-cases (get? id s.estate_staking_info)) [
        | inl missing ↦ ground (
          arith,
          missing,
          h x,
          laws.unreserve_reserved who x amount s.ledger,
          laws.unreserve_reserved who x 0 s.ledger,
          total-insert (of_bond x) id (record { staker = who; amount = 0 - amount })
              s.estate_staking_info,
          total-remove (of_bond x) id s.estate_staking_info,
        )
        | inr (bond, found) ↦ ground (
          arith,
          found,
          h x,
          laws.unreserve_reserved who x amount s.ledger,
          laws.unreserve_reserved who x bond.amount s.ledger,
          total-insert (of_bond x) id (record { staker = who; amount = bond.amount - amount })
              s.estate_staking_info,
          total-remove (of_bond x) id s.estate_staking_info,
        )
      ]
