-- ===== src/Economy/Rewards/Calls.antt =====
-- pallets/economy/src/lib.rs: along every history no reward currency of the pool is over-withdrawn.
use versus_project_metaverse.Prelude.{
  ℕ, ◌+◌, ◌-◌, ◌≤◌, u32_max, saturating_add, ◌≡◌, Option, none, some, [], ok, arith, u128_max,
  >>=-eq_ok, Outcome-cases, nat_eq, ◌==◌, Bool-cases, Option-cases, ◌⊎◌, inl, inr, min,
}
use versus_project_metaverse.Prelude.Maps.{Map, get?, get_or}
use versus_project_metaverse.Primitives.{
  AccountId, Balance, EstateId, EraIndex, FungibleTokenId, native_token, token_eq,
}
use versus_project_metaverse.Economy.Types.{Config, State, PoolInfo}
use versus_project_metaverse.Economy.Staking
use versus_project_metaverse.Economy.Queues
use versus_project_metaverse.Economy.Innovation
use versus_project_metaverse.Economy.Shares.{
  Withdrawn, inflate, remove_each, shrink_pool, add_share, claim_rewards, remove_from, remove_share,
}
use versus_project_metaverse.Economy.Innovation.{add_innovation, settle_innovation, pay_pending}
use versus_project_metaverse.Economy.Staking.{split_stake}
use versus_project_metaverse.Economy.Eras.{
  accumulate_reward, era_reward, handle_reward_distribution_to_reward_pool_every_era,
  update_current_era, on_initialize, get_era_index, update_era_config,
}
use versus_project_metaverse.Economy.Calls.{Call, dispatch, Step, Reach}
use versus_project_metaverse.Economy.Calls
use versus_project_metaverse.Economy.Rewards.Funded.{
  insert-IsFunded, get?-IsFunded, inflate-IsFunded, remove_each-IsFunded,
}
use versus_project_metaverse.Economy.Rewards.Claims.{PoolIsFunded, claim_from-PoolIsFunded}

abbrev pub IsRewardSafe : {c : Config} → State c → Type 0
IsRewardSafe s = PoolIsFunded s.staking_reward_pool_info

module _ (c : Config) where
  add_share-IsRewardSafe :
      (who : AccountId) (a : Balance) (s s' : State c)
      → add_share c who a s ≡ ok s'
      → IsRewardSafe s
      → IsRewardSafe s'
  unfolding add_share
  add_share-IsRewardSafe who a s s' e h = elim (Option-cases s.staking_reward_pool_info) [
    | inl missing ↦ elim (Outcome-cases (inflate a 0 [])) [
      | inl ((m, i), inflated) ↦
          ground (arith, missing, inflated, inflate-IsFunded a 0 [] m i inflated)
      | inr failed ↦ ground (arith, missing, failed)
    ]
    | inr (pool, found) ↦ elim (Outcome-cases (inflate a pool.total_shares pool.rewards)) [
      | inl ((m, i), inflated) ↦
          ground
            (arith, found, inflated, inflate-IsFunded a pool.total_shares pool.rewards m i inflated)
      | inr failed ↦ ground (arith, found, failed)
    ]
  ]

  claim_rewards-IsRewardSafe :
      (who : AccountId) (s s' : State c)
      → claim_rewards c who s ≡ ok s'
      → IsRewardSafe s
      → IsRewardSafe s'
  unfolding claim_rewards
  claim_rewards-IsRewardSafe who s s' e h =
      claim_from-PoolIsFunded c who (get? who s.shares_and_withdrawn_rewards)
        s.staking_reward_pool_info s s' e h h

  shrink_pool-PoolIsFunded :
      (a share : Balance) (ws ws' : Withdrawn) (p p' : Option PoolInfo)
      → shrink_pool a share ws p ≡ ok (p', ws')
      → PoolIsFunded p
      → PoolIsFunded p'
  unfolding shrink_pool
  shrink_pool-PoolIsFunded a share ws ws' none p' e h = ground arith
  shrink_pool-PoolIsFunded a share ws ws' (some pool) p' e h =
      let ((m, us), each, e') = >>=-eq_ok (remove_each a share ws pool.rewards) _ e in
      ground (arith, remove_each-IsFunded a share ws us pool.rewards m each)

  remove_from-IsRewardSafe :
      (who : AccountId) (a : Balance) (i : Option (Balance × Withdrawn)) (s s' : State c)
      → remove_from c who a i s ≡ ok s'
      → IsRewardSafe s
      → IsRewardSafe s'
  unfolding remove_from
  remove_from-IsRewardSafe who a none s s' e h = ground arith
  remove_from-IsRewardSafe who a (some (share, ws)) s s' e h =
      elim (Outcome-cases (shrink_pool (min a share) share ws s.staking_reward_pool_info)) [
        | inl ((p, us), shrunk) ↦ ground (
          arith,
          shrunk,
          shrink_pool-PoolIsFunded (min a share) share ws us s.staking_reward_pool_info p shrunk,
        )
        | inr failed ↦ ground (arith, failed)
      ]

  remove_share-IsRewardSafe :
      (who : AccountId) (a : Balance) (s s' : State c)
      → remove_share c who a s ≡ ok s'
      → IsRewardSafe s
      → IsRewardSafe s'
  unfolding remove_share
  remove_share-IsRewardSafe who a s s' e h = elim (Bool-cases (a == 0)) [
    | inl nothing ↦ ground arith
    | inr something ↦
        let (t, claimed, e') = >>=-eq_ok (claim_rewards c who s) _ (rw something at e) in
        remove_from-IsRewardSafe who a (get? who t.shares_and_withdrawn_rewards) t s' e'
          (claim_rewards-IsRewardSafe who s t claimed h)
  ]

  era_reward-le :
      (changes : EraIndex) (held : Balance) (s : State c) → era_reward c changes held s ≤ u128_max
  unfolding era_reward
  era_reward-le changes held s = ground arith

  -- A reward that fits a `Balance` keeps the pool safe.
  pub accumulate_reward-IsRewardSafe :
      (k : FungibleTokenId) (a : Balance) (s s' : State c)
      → a ≤ u128_max
      → accumulate_reward c k a s ≡ ok s'
      → IsRewardSafe s
      → IsRewardSafe s'
  unfolding accumulate_reward
  accumulate_reward-IsRewardSafe k a s s' fits e h =
      elim (Option-cases s.staking_reward_pool_info) [
        | inl missing ↦ ground arith
        | inr (pool, found) ↦ elim (Option-cases (get? k pool.rewards)) [
          | inl fresh ↦ ground (arith, found, fresh, h, insert-IsFunded k a 0 pool.rewards)
          | inr ((r, w), there) ↦ ground (
            arith,
            found,
            there,
            h,
            get?-IsFunded k pool.rewards r w,
            insert-IsFunded k (min (r + a) u128_max) w pool.rewards,
          )
        ]
      ]

  handle-IsRewardSafe :
      (old new : EraIndex) (s s' : State c)
      → handle_reward_distribution_to_reward_pool_every_era c old new s ≡ ok s'
      → IsRewardSafe s
      → IsRewardSafe s'
  unfolding handle_reward_distribution_to_reward_pool_every_era
  handle-IsRewardSafe old new s s' e h =
      let held = c.free_balance c.reward_payout_account s.ledger in
      let a = era_reward c (new - old) held s in
      ground (
        arith,
        accumulate_reward-IsRewardSafe (native_token 0) a s s' (era_reward-le (new - old) held s),
      )

  update_current_era-IsRewardSafe :
      (era : EraIndex) (s s' : State c)
      → update_current_era c era s ≡ ok s'
      → IsRewardSafe s
      → IsRewardSafe s'
  unfolding update_current_era
  update_current_era-IsRewardSafe era s s' e h =
      let new = saturating_add u32_max s.current_era era in
      let (t, handled, e') =
        >>=-eq_ok (handle_reward_distribution_to_reward_pool_every_era c s.current_era new s) _ e in
      ground (arith, handle-IsRewardSafe s.current_era new s t handled h)

  on_initialize-IsRewardSafe :
      (s s' : State c) → on_initialize c s ≡ ok s' → IsRewardSafe s → IsRewardSafe s'
  unfolding on_initialize
  on_initialize-IsRewardSafe s s' e h =
      let era = get_era_index c s.block_number s in
      elim (Outcome-cases (update_current_era c era s)) [
        | inl (t, updated) ↦
            ground (arith, updated, update_current_era-IsRewardSafe era s t updated h)
        | inr failed ↦ ground (arith, failed)
      ]

  stake_on_innovation-IsRewardSafe :
      (o : c.Origin) (amount : Balance) (s s' : State c)
      → Innovation.stake_on_innovation c o amount s ≡ ok s'
      → IsRewardSafe s
      → IsRewardSafe s'
  unfolding Innovation.stake_on_innovation add_innovation
  stake_on_innovation-IsRewardSafe o amount s s' e h =
      let (who, signed, _) = >>=-eq_ok (c.ensure_signed o) _ e in
      let old = get_or 0 who s.innovation_staking_info in
      elim (Outcome-cases (c.reserve who amount s.ledger)) [
        | inl (l, reserved) ↦
            let t = add_innovation c who (old + amount) amount l s in
            elim (Outcome-cases (add_share c who amount t)) [
              | inl (u, shared) ↦
                  ground (arith, reserved, shared, add_share-IsRewardSafe who amount t u shared h)
              | inr failed ↦ ground (arith, reserved, failed)
            ]
        | inr failed ↦ ground (arith, failed)
      ]

  unstake_on_innovation-IsRewardSafe :
      (o : c.Origin) (amount : Balance) (s s' : State c)
      → Innovation.unstake_on_innovation c o amount s ≡ ok s'
      → IsRewardSafe s
      → IsRewardSafe s'
  unfolding Innovation.unstake_on_innovation settle_innovation
  unstake_on_innovation-IsRewardSafe o amount s s' e h =
      let (who, signed, _) = >>=-eq_ok (c.ensure_signed o) _ e in
      let old = get_or 0 who s.innovation_staking_info in
      elim (Outcome-cases (split_stake c.minimum_stake old amount)) [
        | inl ((r, u), split) ↦
            let t = settle_innovation c who r u s in
            elim (Outcome-cases (remove_share c who u t)) [
              | inl (v, removed) ↦
                  ground (arith, split, removed, remove_share-IsRewardSafe who u t v removed h)
              | inr failed ↦ ground (arith, split, failed)
            ]
        | inr failed ↦ ground (arith, failed)
      ]

  pay_pending-same :
      (who : AccountId) (m : Option (Map FungibleTokenId Balance)) (s s' : State c)
      → pay_pending c who m s ≡ ok s'
      → s'.staking_reward_pool_info ≡ s.staking_reward_pool_info
  unfolding pay_pending
  pay_pending-same who none s s' e = ground arith
  pay_pending-same who (some m) s s' e = ground arith

  claim_reward-IsRewardSafe :
      (o : c.Origin) (s s' : State c)
      → Innovation.claim_reward c o s ≡ ok s'
      → IsRewardSafe s
      → IsRewardSafe s'
  unfolding Innovation.claim_reward
  claim_reward-IsRewardSafe o s s' e h =
      let (who, signed, e') = >>=-eq_ok (c.ensure_signed o) _ e in
      let (t, claimed, e'') = >>=-eq_ok (claim_rewards c who s) _ e' in
      ground (
        arith,
        claim_rewards-IsRewardSafe who s t claimed h,
        pay_pending-same who (get? who t.pending_rewards) t s' e'',
      )

  stake-same :
      (o : c.Origin) (amount : Balance) (estate : Option EstateId) (s s' : State c)
      → (Staking.stake c o amount estate s ≡ ok s') ⊎ (Staking.unstake c o amount estate s ≡ ok s')
      → s'.staking_reward_pool_info ≡ s.staking_reward_pool_info
  unfolding Staking.stake Staking.unstake Staking.stake_self Staking.stake_estate
      Staking.unstake_self Staking.unstake_estate
  stake-same o amount none s s' e = ground arith
  stake-same o amount (some id) s s' e = ground arith

  unstake_new_estate_owner-same :
      (o : c.Origin) (id : EstateId) (s s' : State c)
      → Queues.unstake_new_estate_owner c o id s ≡ ok s'
      → s'.staking_reward_pool_info ≡ s.staking_reward_pool_info
  unfolding Queues.unstake_new_estate_owner Queues.release_bond
  unstake_new_estate_owner-same o id s s' e = ground arith

  force_unstake-same :
      (o : c.Origin) (amount : Balance) (who : AccountId) (estate : Option EstateId)
      (s s' : State c)
      → Queues.force_unstake c o amount who estate s ≡ ok s'
      → s'.staking_reward_pool_info ≡ s.staking_reward_pool_info
  unfolding Queues.force_unstake Queues.force_unstake_self Queues.force_unstake_estate
  force_unstake-same o amount who none s s' e = ground arith
  force_unstake-same o amount who (some id) s s' e = ground arith

  queue-same :
      (o : c.Origin) (round id amount : ℕ) (who : AccountId) (last frequency rate : Option ℕ)
      (s s' : State c)
      → (Queues.withdraw_unreserved c o round s ≡ ok s')
        ⊎ (Queues.withdraw_estate_unreserved c o round id s ≡ ok s')
        ⊎ (Queues.force_unreserved_staking c o amount who s ≡ ok s')
        ⊎ (update_era_config c o last frequency rate s ≡ ok s')
      → s'.staking_reward_pool_info ≡ s.staking_reward_pool_info
  unfolding Queues.withdraw_unreserved Queues.withdraw_estate_unreserved
      Queues.force_unreserved_staking update_era_config
  queue-same o round id amount who last frequency rate s s' e = ground arith

  same-IsRewardSafe :
      (s s' : State c)
      → s'.staking_reward_pool_info ≡ s.staking_reward_pool_info
      → IsRewardSafe s
      → IsRewardSafe s'
  same-IsRewardSafe s s' e h = rw e h

  dispatch-IsRewardSafe :
      (call : Call c) (s s' : State c)
      → dispatch c call s ≡ ok s'
      → IsRewardSafe s
      → IsRewardSafe s'
  unfolding dispatch
  dispatch-IsRewardSafe (Calls.stake o amount estate) s s' e =
      same-IsRewardSafe s s' (stake-same o amount estate s s' (inl e))
  dispatch-IsRewardSafe (Calls.stake_on_innovation o amount) s s' e =
      stake_on_innovation-IsRewardSafe o amount s s' e
  dispatch-IsRewardSafe (Calls.unstake_on_innovation o amount) s s' e =
      unstake_on_innovation-IsRewardSafe o amount s s' e
  dispatch-IsRewardSafe (Calls.claim_reward o) s s' e = claim_reward-IsRewardSafe o s s' e
  dispatch-IsRewardSafe (Calls.unstake o amount estate) s s' e =
      same-IsRewardSafe s s' (stake-same o amount estate s s' (inr e))
  dispatch-IsRewardSafe (Calls.unstake_new_estate_owner o id) s s' e =
      same-IsRewardSafe s s' (unstake_new_estate_owner-same o id s s' e)
  dispatch-IsRewardSafe (Calls.withdraw_unreserved o round) s s' e =
      same-IsRewardSafe s s' (queue-same o round 0 0 0 none none none s s' (inl e))
  dispatch-IsRewardSafe (Calls.withdraw_estate_unreserved o round id) s s' e =
      same-IsRewardSafe s s' (queue-same o round id 0 0 none none none s s' (inr (inl e)))
  dispatch-IsRewardSafe (Calls.force_unstake o amount who estate) s s' e =
      same-IsRewardSafe s s' (force_unstake-same o amount who estate s s' e)
  dispatch-IsRewardSafe (Calls.force_unreserved_staking o amount who) s s' e =
      same-IsRewardSafe s s' (queue-same o 0 0 amount who none none none s s' (inr (inr (inl e))))
  dispatch-IsRewardSafe (Calls.update_era_config o last frequency rate) s s' e =
      same-IsRewardSafe s s' (queue-same o 0 0 0 0 last frequency rate s s' (inr (inr (inr e))))

  Step-IsRewardSafe : {s s' : State c} → Step s s' → IsRewardSafe s → IsRewardSafe s'
  Step-IsRewardSafe {s} {s'} (Step.called call k e) h = dispatch-IsRewardSafe call s s' e h
  Step-IsRewardSafe {s} {s'} (Step.new_block n round e) h =
      on_initialize-IsRewardSafe (record s { block_number = n; round = round }) s' e h
  Step-IsRewardSafe {s} {s'} (Step.elsewhere ledger estates grows e) h = rw e h

  -- From a state where this holds, along every history of calls (`force_unreserved_staking`
  -- apart), new blocks, and moves of other pallets that take nothing of a reserved balance, of every
  -- reward currency of the pool at most the total is recorded as withdrawn, and the total fits a
  -- u128.
  pub Reach-IsRewardSafe : {s t : State c} → Reach s t → IsRewardSafe s → IsRewardSafe t
  Reach-IsRewardSafe Reach.here h = h
  Reach-IsRewardSafe (Reach.next r step) h = Step-IsRewardSafe step (Reach-IsRewardSafe r h)
