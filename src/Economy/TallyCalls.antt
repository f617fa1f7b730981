-- ===== src/Economy/TallyCalls.antt =====
-- pallets/economy/src/lib.rs: every call against the stored totals.
use versus_project_metaverse.Prelude.{
  ℕ, ◌+◌, ◌≤◌, ◌≡◌, Option, none, some, ok, arith, nat_eq, u128_max, >>=-eq_ok, Outcome-cases, ◌⊎◌,
  inl, inr, refl,
}
use versus_project_metaverse.Prelude.Maps.{Map, get?, get_or}
use versus_project_metaverse.Prelude.Totals.{total, total-insert, total-remove}
use versus_project_metaverse.Primitives.{AccountId, Balance, EstateId, FungibleTokenId}
use versus_project_metaverse.Economy.Types.{Config, State}
use versus_project_metaverse.Economy.Staking
use versus_project_metaverse.Economy.Staking.{split_stake}
use versus_project_metaverse.Economy.Queues
use versus_project_metaverse.Economy.Shares.{add_share, remove_share, claim_rewards}
use versus_project_metaverse.Economy.Innovation
use versus_project_metaverse.Economy.Innovation.{
  add_innovation, settle_innovation, pay_each, pay_pending,
}
use versus_project_metaverse.Economy.Eras.{update_era_config}
use versus_project_metaverse.Economy.Calls.{Call, dispatch}
use versus_project_metaverse.Economy.Calls
use versus_project_metaverse.Economy.Frames.{
  KeepsStakes, add_share-KeepsStakes, remove_share-KeepsStakes, claim_rewards-KeepsStakes,
}
use versus_project_metaverse.Economy.Tallies.{
  staked, bond_amount, IsTallied, stake_self-IsTallied, stake_estate-IsTallied,
  unstake_self-IsTallied, force_unstake_self-IsTallied, unstake_estate-IsTallied,
  release_bond-IsTallied,
}

-- A stake fits the totals, and no estate is unstaked by force.
abbrev pub Fits : {c : Config} → Call c → State c → Type 0
Fits (Calls.stake _ amount none) s = total staked s.staking_info + amount ≤ u128_max
Fits (Calls.stake _ amount (some _)) s = total bond_amount s.estate_staking_info + amount ≤ u128_max
Fits (Calls.stake_on_innovation _ amount) s =
    total staked s.innovation_staking_info + amount ≤ u128_max
Fits (Calls.force_unstake _ _ _ (some _)) s = ⊥
Fits _ s = Unit

module _ (c : Config) where
  KeepsStakes-IsTallied : (s s' : State c) → KeepsStakes s s' → IsTallied s → IsTallied s'
  KeepsStakes-IsTallied s s' e h = ground arith

  stake_on_innovation-IsTallied :
      (o : c.Origin) (amount : Balance) (s s' : State c)
      → total staked s.innovation_staking_info + amount ≤ u128_max
      → Innovation.stake_on_innovation c o amount s ≡ ok s'
      → IsTallied s
      → IsTallied s'
  unfolding Innovation.stake_on_innovation add_innovation
  stake_on_innovation-IsTallied o amount s s' fits e h =
      let (who, signed, _) = >>=-eq_ok (c.ensure_signed o) _ e in
      let old = get_or 0 who s.innovation_staking_info in
      elim (Outcome-cases (c.reserve who amount s.ledger)) [
        | inl (l, reserved) ↦
            let t = add_innovation c who (old + amount) amount l s in
            elim (Outcome-cases (add_share c who amount t)) [
              | inl (u, shared) ↦ ground (
                arith,
                reserved,
                shared,
                add_share-KeepsStakes c who amount t u shared,
                total-insert staked who (old + amount) s.innovation_staking_info,
              )
              | inr failed ↦ ground (arith, reserved, failed)
            ]
        | inr failed ↦ ground (arith, failed)
      ]

  settle_innovation-IsTallied :
      (who : AccountId) (amount remaining to_unstake : Balance) (s : State c)
      → split_stake c.minimum_stake (get_or 0 who s.innovation_staking_info) amount
        ≡ ok (remaining, to_unstake)
      → IsTallied s
      → IsTallied (settle_innovation c who remaining to_unstake s)
  unfolding settle_innovation split_stake
  settle_innovation-IsTallied who amount remaining to_unstake s e h = ground (
    arith,
    total-insert staked who remaining s.innovation_staking_info,
    total-remove staked who s.innovation_staking_info,
  )

  unstake_on_innovation-IsTallied :
      (o : c.Origin) (amount : Balance) (s s' : State c)
      → Innovation.unstake_on_innovation c o amount s ≡ ok s'
      → IsTallied s
      → IsTallied s'
  unfolding Innovation.unstake_on_innovation
  unstake_on_innovation-IsTallied o amount s s' e h =
      let (who, signed, _) = >>=-eq_ok (c.ensure_signed o) _ e in
      let old = get_or 0 who s.innovation_staking_info in
      elim (Outcome-cases (split_stake c.minimum_stake old amount)) [
        | inl ((r, u), split) ↦
            let t = settle_innovation c who r u s in
            elim (Outcome-cases (remove_share c who u t)) [
              | inl (v, removed) ↦ ground (
                arith,
                split,
                removed,
                settle_innovation-IsTallied who amount r u s split h,
                remove_share-KeepsStakes c who u t v removed,
              )
              | inr failed ↦ ground (arith, split, failed)
            ]
        | inr failed ↦ ground (arith, failed)
      ]

  pay_pending-IsTallied :
      (who : AccountId) (m : Option (Map FungibleTokenId Balance)) (s s' : State c)
      → pay_pending c who m s ≡ ok s'
      → IsTallied s
      → IsTallied s'
  unfolding pay_pending
  pay_pending-IsTallied who none s s' e h = ground arith
  pay_pending-IsTallied who (some m) s s' e h = ground arith

  claim_reward-IsTallied :
      (o : c.Origin) (s s' : State c)
      → Innovation.claim_reward c o s ≡ ok s'
      → IsTallied s
      → IsTallied s'
  unfolding Innovation.claim_reward
  claim_reward-IsTallied o s s' e h =
      let (who, signed, e') = >>=-eq_ok (c.ensure_signed o) _ e in
      let (t, claimed, e'') = >>=-eq_ok (claim_rewards c who s) _ e' in
      pay_pending-IsTallied who (get? who t.pending_rewards) t s' e''
        (KeepsStakes-IsTallied s t (claim_rewards-KeepsStakes c who s t claimed) h)

  stake-IsTallied :
      (o : c.Origin) (amount : Balance) (estate : Option EstateId) (s s' : State c)
      → Fits (Calls.stake o amount estate) s
      → Staking.stake c o amount estate s ≡ ok s'
      → IsTallied s
      → IsTallied s'
  unfolding Staking.stake
  stake-IsTallied o amount none s s' fits e h =
      let (who, signed, _) = >>=-eq_ok (c.ensure_signed o) _ e in
      stake_self-IsTallied c who amount s s' fits (ground arith) h
  stake-IsTallied o amount (some id) s s' fits e h =
      let (who, signed, _) = >>=-eq_ok (c.ensure_signed o) _ e in
      stake_estate-IsTallied c who amount id s s' fits (ground arith) h

  unstake-IsTallied :
      (o : c.Origin) (amount : Balance) (estate : Option EstateId) (s s' : State c)
      → Staking.unstake c o amount estate s ≡ ok s'
      → IsTallied s
      → IsTallied s'
  unfolding Staking.unstake
  unstake-IsTallied o amount none s s' e h =
      let (who, signed, _) = >>=-eq_ok (c.ensure_signed o) _ e in
      unstake_self-IsTallied c who amount s s' (ground arith) h
  unstake-IsTallied o amount (some id) s s' e h =
      let (who, signed, _) = >>=-eq_ok (c.ensure_signed o) _ e in
      unstake_estate-IsTallied c who amount id s s' (ground arith) h

  unstake_new_estate_owner-IsTallied :
      (o : c.Origin) (id : EstateId) (s s' : State c)
      → Queues.unstake_new_estate_owner c o id s ≡ ok s'
      → IsTallied s
      → IsTallied s'
  unfolding Queues.unstake_new_estate_owner
  unstake_new_estate_owner-IsTallied o id s s' e h =
      let (who, signed, _) = >>=-eq_ok (c.ensure_signed o) _ e in
      release_bond-IsTallied c who id (get? id s.estate_staking_info) s s' refl (ground arith) h

  others-IsTallied :
      (o : c.Origin) (round id amount : ℕ) (who : AccountId) (last frequency rate : Option ℕ)
      (s s' : State c)
      → (Queues.withdraw_unreserved c o round s ≡ ok s')
        ⊎ (Queues.withdraw_estate_unreserved c o round id s ≡ ok s')
        ⊎ (Queues.force_unreserved_staking c o amount who s ≡ ok s')
        ⊎ (update_era_config c o last frequency rate s ≡ ok s')
      → IsTallied s
      → IsTallied s'
  unfolding Queues.withdraw_unreserved Queues.withdraw_estate_unreserved
      Queues.force_unreserved_staking update_era_config
  others-IsTallied o round id amount who last frequency rate s s' e h = ground arith

  -- A successful call that fits the u128 totals keeps each of the three stored totals equal to the
  -- sum of the stakes of its kind; `force_unstake` on an estate is left out.
  pub dispatch-IsTallied :
      (call : Call c) (s s' : State c)
      → Fits call s
      → dispatch c call s ≡ ok s'
      → IsTallied s
      → IsTallied s'
  unfolding dispatch
  dispatch-IsTallied (Calls.stake o amount none) s s' f e h =
      stake-IsTallied o amount none s s' f e h
  dispatch-IsTallied (Calls.stake o amount (some id)) s s' f e h =
      stake-IsTallied o amount (some id) s s' f e h
  dispatch-IsTallied (Calls.stake_on_innovation o amount) s s' f e h =
      stake_on_innovation-IsTallied o amount s s' f e h
  dispatch-IsTallied (Calls.unstake_on_innovation o amount) s s' f e h =
      unstake_on_innovation-IsTallied o amount s s' e h
  dispatch-IsTallied (Calls.claim_reward o) s s' f e h = claim_reward-IsTallied o s s' e h
  dispatch-IsTallied (Calls.unstake o amount estate) s s' f e h =
      unstake-IsTallied o amount estate s s' e h
  dispatch-IsTallied (Calls.unstake_new_estate_owner o id) s s' f e h =
      unstake_new_estate_owner-IsTallied o id s s' e h
  dispatch-IsTallied (Calls.withdraw_unreserved o round) s s' f e h =
      others-IsTallied o round 0 0 0 none none none s s' (inl e) h
  dispatch-IsTallied (Calls.withdraw_estate_unreserved o round id) s s' f e h =
      others-IsTallied o round id 0 0 none none none s s' (inr (inl e)) h
  dispatch-IsTallied (Calls.force_unstake o amount who none) s s' f e h =
      force_unstake_self-IsTallied c who amount s s' (unfold Queues.force_unstake in ground arith) h
  dispatch-IsTallied (Calls.force_unstake o amount who (some id)) s s' f e h = absurd f
  dispatch-IsTallied (Calls.force_unreserved_staking o amount who) s s' f e h =
      others-IsTallied o 0 0 amount who none none none s s' (inr (inr (inl e))) h
  dispatch-IsTallied (Calls.update_era_config o last frequency rate) s s' f e h =
      others-IsTallied o 0 0 0 0 last frequency rate s s' (inr (inr (inr e))) h
