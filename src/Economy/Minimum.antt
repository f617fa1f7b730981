-- ===== src/Economy/Minimum.antt =====
-- pallets/economy/src/lib.rs: no stake stands below the minimum.
use versus_project_metaverse.Prelude.{
  ℕ, ◌+◌, ◌-◌, ◌≡◌, Option, none, some, ok, arith, nat_eq, pair_eq, >>=-eq_ok, Option-cases,
  Outcome-cases, inl, inr, ◌⊎◌, sym, ap, subst,
}
use versus_project_metaverse.Prelude.Maps.{Map, get?, get_or}
use versus_project_metaverse.Prelude.Totals.{AtLeast, insert-AtLeast, remove-AtLeast}
use versus_project_metaverse.Primitives.{AccountId, Balance, EstateId, FungibleTokenId}
use versus_project_metaverse.Economy.Types.{Config, State}
use versus_project_metaverse.Economy.Staking
use versus_project_metaverse.Economy.Staking.{split_stake}
use versus_project_metaverse.Economy.Queues
use versus_project_metaverse.Economy.Shares.{add_share, remove_share, claim_rewards}
use versus_project_metaverse.Economy.Innovation
use versus_project_metaverse.Economy.Innovation.{add_innovation, settle_innovation, pay_pending}
use versus_project_metaverse.Economy.Eras.{update_era_config}
use versus_project_metaverse.Economy.Calls.{Call, dispatch}
use versus_project_metaverse.Economy.Calls
use versus_project_metaverse.Economy.Frames.{
  KeepsStakes, add_share-KeepsStakes, remove_share-KeepsStakes, claim_rewards-KeepsStakes,
}
use versus_project_metaverse.Economy.Tallies.{staked, bond_amount}

-- Every stored stake is at least `MinimumStake`.
pub record HasMinimum {c : Config} (s : State c) : Type 0 where
  pub self_stakes : AtLeast staked c.minimum_stake s.staking_info
  pub estate_stakes : AtLeast bond_amount c.minimum_stake s.estate_staking_info
  pub innovation_stakes : AtLeast staked c.minimum_stake s.innovation_staking_info

module _ (c : Config) where
  stake_self-HasMinimum :
      (who : AccountId) (amount : Balance) (s s' : State c)
      → (Staking.stake_self c who amount s ≡ ok s')
        ⊎ (Staking.unstake_self c who amount s ≡ ok s')
        ⊎ (Queues.force_unstake_self c who amount s ≡ ok s')
      → HasMinimum s
      → HasMinimum s'
  unfolding Staking.stake_self Staking.unstake_self Queues.force_unstake_self
  stake_self-HasMinimum who amount s s' e h =
      let old = get_or 0 who s.staking_info in
      let least = c.minimum_stake in
      ground (
        arith,
        h.self_stakes,
        insert-AtLeast staked least who (old + amount) s.staking_info,
        insert-AtLeast staked least who (old - amount) s.staking_info,
        remove-AtLeast staked least who s.staking_info,
      )

  stake_estate-HasMinimum :
      (who : AccountId) (amount : Balance) (id : EstateId) (s s' : State c)
      → (Staking.stake_estate c who amount id s ≡ ok s')
        ⊎ (Staking.unstake_estate c who amount id s ≡ ok s')
        ⊎ (Queues.force_unstake_estate c who amount id s ≡ ok s')
      → HasMinimum s
      → HasMinimum s'
  unfolding Staking.stake_estate Staking.unstake_estate Queues.force_unstake_estate
  stake_estate-HasMinimum who amount id s s' e h =
      let least = c.minimum_stake in
      elim (Option-cases (get? id s.estate_staking_info)) [
        | inl missing ↦ ground (
          arith,
          missing,
          h.estate_stakes,
          insert-AtLeast bond_amount least id (record { staker = who; amount = amount })
              s.estate_staking_info,
          insert-AtLeast bond_amount least id (record { staker = who; amount = 0 - amount })
              s.estate_staking_info,
          remove-AtLeast bond_amount least id s.estate_staking_info,
        )
        | inr (bond, found) ↦ ground (
          arith,
          found,
          h.estate_stakes,
          insert-AtLeast bond_amount least id
              (record { staker = who; amount = bond.amount + amount }) s.estate_staking_info,
          insert-AtLeast bond_amount least id
              (record { staker = who; amount = bond.amount - amount }) s.estate_staking_info,
          remove-AtLeast bond_amount least id s.estate_staking_info,
        )
      ]

  KeepsStakes-HasMinimum : (s s' : State c) → KeepsStakes s s' → HasMinimum s → HasMinimum s'
  KeepsStakes-HasMinimum s s' e h =
      let least = c.minimum_stake in
      record {
        self_stakes =
            subst (AtLeast staked least) (sym (ap (λ (t : State c). t.staking_info) e))
              h.self_stakes;
        estate_stakes =
            subst (AtLeast bond_amount least) (sym (ap (λ (t : State c). t.estate_staking_info) e))
              h.estate_stakes;
        innovation_stakes =
            subst (AtLeast staked least) (sym (ap (λ (t : State c). t.innovation_staking_info) e))
              h.innovation_stakes;
      }

  stake_on_innovation-HasMinimum :
      (o : c.Origin) (amount : Balance) (s s' : State c)
      → Innovation.stake_on_innovation c o amount s ≡ ok s'
      → HasMinimum s
      → HasMinimum s'
  unfolding Innovation.stake_on_innovation add_innovation
  stake_on_innovation-HasMinimum o amount s s' e h =
      let (who, signed, _) = >>=-eq_ok (c.ensure_signed o) _ e in
      let old = get_or 0 who s.innovation_staking_info in
      elim (Outcome-cases (c.reserve who amount s.ledger)) [
        | inl (l, reserved) ↦
            let t = add_innovation c who (old + amount) amount l s in
            elim (Outcome-cases (add_share c who amount t)) [
              | inl (u, shared) ↦ ground (
                arith,
                reserved,
                shared,
                h.innovation_stakes,
                KeepsStakes-HasMinimum t u (add_share-KeepsStakes c who amount t u shared),
                insert-AtLeast staked c.minimum_stake who (old + amount) s.innovation_staking_info,
              )
              | inr failed ↦ ground (arith, reserved, failed)
            ]
        | inr failed ↦ ground (arith, failed)
      ]

  settle_innovation-HasMinimum :
      (who : AccountId) (amount remaining to_unstake : Balance) (s : State c)
      → split_stake c.minimum_stake (get_or 0 who s.innovation_staking_info) amount
        ≡ ok (remaining, to_unstake)
      → HasMinimum s
      → HasMinimum (settle_innovation c who remaining to_unstake s)
  unfolding settle_innovation split_stake
  settle_innovation-HasMinimum who amount remaining to_unstake s e h = ground (
    arith,
    h.innovation_stakes,
    insert-AtLeast staked c.minimum_stake who remaining s.innovation_staking_info,
    remove-AtLeast staked c.minimum_stake who s.innovation_staking_info,
  )

  unstake_on_innovation-HasMinimum :
      (o : c.Origin) (amount : Balance) (s s' : State c)
      → Innovation.unstake_on_innovation c o amount s ≡ ok s'
      → HasMinimum s
      → HasMinimum s'
  unfolding Innovation.unstake_on_innovation
  unstake_on_innovation-HasMinimum o amount s s' e h =
      let (who, signed, _) = >>=-eq_ok (c.ensure_signed o) _ e in
      let old = get_or 0 who s.innovation_staking_info in
      elim (Outcome-cases (split_stake c.minimum_stake old amount)) [
        | inl ((r, u), split) ↦
            let t = settle_innovation c who r u s in
            elim (Outcome-cases (remove_share c who u t)) [
              | inl (v, removed) ↦
                  let kept =
                    KeepsStakes-HasMinimum t v (remove_share-KeepsStakes c who u t v removed)
                      (settle_innovation-HasMinimum who amount r u s split h) in
                  ground (
                    arith, split, removed, kept.self_stakes, kept.estate_stakes,
                    kept.innovation_stakes,
                  )
              | inr failed ↦ ground (arith, split, failed)
            ]
        | inr failed ↦ ground (arith, failed)
      ]

  -- A state that differs in none of the three maps.
  same-HasMinimum :
      (s s' : State c)
      → s'.staking_info ≡ s.staking_info
      → s'.estate_staking_info ≡ s.estate_staking_info
      → s'.innovation_staking_info ≡ s.innovation_staking_info
      → HasMinimum s
      → HasMinimum s'
  same-HasMinimum s s' p q r h = record {
    self_stakes = subst (AtLeast staked c.minimum_stake) (sym p) h.self_stakes;
    estate_stakes = subst (AtLeast bond_amount c.minimum_stake) (sym q) h.estate_stakes;
    innovation_stakes = subst (AtLeast staked c.minimum_stake) (sym r) h.innovation_stakes;
  }

  pay_pending-HasMinimum :
      (who : AccountId) (m : Option (Map FungibleTokenId Balance)) (s s' : State c)
      → pay_pending c who m s ≡ ok s'
      → HasMinimum s
      → HasMinimum s'
  unfolding pay_pending
  pay_pending-HasMinimum who none s s' e =
      same-HasMinimum s s' (ground arith) (ground arith) (ground arith)
  pay_pending-HasMinimum who (some m) s s' e =
      same-HasMinimum s s' (ground arith) (ground arith) (ground arith)

  claim_reward-HasMinimum :
      (o : c.Origin) (s s' : State c)
      → Innovation.claim_reward c o s ≡ ok s'
      → HasMinimum s
      → HasMinimum s'
  unfolding Innovation.claim_reward
  claim_reward-HasMinimum o s s' e h =
      let (who, signed, e') = >>=-eq_ok (c.ensure_signed o) _ e in
      let (t, claimed, e'') = >>=-eq_ok (claim_rewards c who s) _ e' in
      pay_pending-HasMinimum who (get? who t.pending_rewards) t s' e''
        (KeepsStakes-HasMinimum s t (claim_rewards-KeepsStakes c who s t claimed) h)

  stake-HasMinimum :
      (o : c.Origin) (amount : Balance) (estate : Option EstateId) (s s' : State c)
      → Staking.stake c o amount estate s ≡ ok s'
      → HasMinimum s
      → HasMinimum s'
  unfolding Staking.stake
  stake-HasMinimum o amount none s s' e =
      let (who, signed, _) = >>=-eq_ok (c.ensure_signed o) _ e in
      stake_self-HasMinimum who amount s s' (inl (ground arith))
  stake-HasMinimum o amount (some id) s s' e =
      let (who, signed, _) = >>=-eq_ok (c.ensure_signed o) _ e in
      stake_estate-HasMinimum who amount id s s' (inl (ground arith))

  unstake-HasMinimum :
      (o : c.Origin) (amount : Balance) (estate : Option EstateId) (s s' : State c)
      → Staking.unstake c o amount estate s ≡ ok s'
      → HasMinimum s
      → HasMinimum s'
  unfolding Staking.unstake
  unstake-HasMinimum o amount none s s' e =
      let (who, signed, _) = >>=-eq_ok (c.ensure_signed o) _ e in
      stake_self-HasMinimum who amount s s' (inr (inl (ground arith)))
  unstake-HasMinimum o amount (some id) s s' e =
      let (who, signed, _) = >>=-eq_ok (c.ensure_signed o) _ e in
      stake_estate-HasMinimum who amount id s s' (inr (inl (ground arith)))

  force_unstake-HasMinimum :
      (o : c.Origin) (amount : Balance) (who : AccountId) (estate : Option EstateId)
      (s s' : State c)
      → Queues.force_unstake c o amount who estate s ≡ ok s'
      → HasMinimum s
      → HasMinimum s'
  unfolding Queues.force_unstake
  force_unstake-HasMinimum o amount who none s s' e =
      stake_self-HasMinimum who amount s s' (inr (inr (ground arith)))
  force_unstake-HasMinimum o amount who (some id) s s' e =
      stake_estate-HasMinimum who amount id s s' (inr (inr (ground arith)))

  unstake_new_estate_owner-HasMinimum :
      (o : c.Origin) (id : EstateId) (s s' : State c)
      → Queues.unstake_new_estate_owner c o id s ≡ ok s'
      → HasMinimum s
      → HasMinimum s'
  unfolding Queues.unstake_new_estate_owner Queues.release_bond
  unstake_new_estate_owner-HasMinimum o id s s' e h = ground (
    arith,
    h.self_stakes,
    h.innovation_stakes,
    remove-AtLeast bond_amount c.minimum_stake id s.estate_staking_info h.estate_stakes,
  )

  others-HasMinimum :
      (o : c.Origin) (round id amount : ℕ) (who : AccountId) (last frequency rate : Option ℕ)
      (s s' : State c)
      → (Queues.withdraw_unreserved c o round s ≡ ok s')
        ⊎ (Queues.withdraw_estate_unreserved c o round id s ≡ ok s')
        ⊎ (Queues.force_unreserved_staking c o amount who s ≡ ok s')
        ⊎ (update_era_config c o last frequency rate s ≡ ok s')
      → HasMinimum s
      → HasMinimum s'
  unfolding Queues.withdraw_unreserved Queues.withdraw_estate_unreserved
      Queues.force_unreserved_staking update_era_config
  others-HasMinimum o round id amount who last frequency rate s s' e =
      same-HasMinimum s s' (ground arith) (ground arith) (ground arith)

  -- Every successful call keeps all self, estate and innovation stakes at or above `MinimumStake`
  -- where they were so before.
  pub dispatch-HasMinimum :
      (call : Call c) (s s' : State c) → dispatch c call s ≡ ok s' → HasMinimum s → HasMinimum s'
  unfolding dispatch
  dispatch-HasMinimum (Calls.stake o amount estate) s s' e = stake-HasMinimum o amount estate s s' e
  dispatch-HasMinimum (Calls.stake_on_innovation o amount) s s' e =
      stake_on_innovation-HasMinimum o amount s s' e
  dispatch-HasMinimum (Calls.unstake_on_innovation o amount) s s' e =
      unstake_on_innovation-HasMinimum o amount s s' e
  dispatch-HasMinimum (Calls.claim_reward o) s s' e = claim_reward-HasMinimum o s s' e
  dispatch-HasMinimum (Calls.unstake o amount estate) s s' e =
      unstake-HasMinimum o amount estate s s' e
  dispatch-HasMinimum (Calls.unstake_new_estate_owner o id) s s' e =
      unstake_new_estate_owner-HasMinimum o id s s' e
  dispatch-HasMinimum (Calls.withdraw_unreserved o round) s s' e =
      others-HasMinimum o round 0 0 0 none none none s s' (inl e)
  dispatch-HasMinimum (Calls.withdraw_estate_unreserved o round id) s s' e =
      others-HasMinimum o round id 0 0 none none none s s' (inr (inl e))
  dispatch-HasMinimum (Calls.force_unstake o amount who estate) s s' e =
      force_unstake-HasMinimum o amount who estate s s' e
  dispatch-HasMinimum (Calls.force_unreserved_staking o amount who) s s' e =
      others-HasMinimum o 0 0 amount who none none none s s' (inr (inr (inl e)))
  dispatch-HasMinimum (Calls.update_era_config o last frequency rate) s s' e =
      others-HasMinimum o 0 0 0 0 last frequency rate s s' (inr (inr (inr e)))
