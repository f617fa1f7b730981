-- ===== src/Economy/Frames.antt =====
-- pallets/economy/src/lib.rs: what the functions on shares, rewards and eras leave alone.
use versus_project_metaverse.Prelude.{
  ◌≡◌, Option, none, some, ok, arith, >>=-eq_ok, inl, inr, nat_eq, ◌==◌, Bool-cases,
}
use versus_project_metaverse.Prelude.Maps.{get?}
use versus_project_metaverse.Primitives.{AccountId, Balance}
use versus_project_metaverse.Economy.Types.{Config, State, PoolInfo}
use versus_project_metaverse.Economy.Shares.{
  Withdrawn, add_share, claim_from, claim_rewards, remove_from, remove_share,
}

-- Nothing but the pool, the shares and the pending rewards differs.
abbrev pub KeepsStakes : {c : Config} → State c → State c → Type 0
KeepsStakes s s' = s' ≡ record s {
  staking_reward_pool_info = s'.staking_reward_pool_info;
  shares_and_withdrawn_rewards = s'.shares_and_withdrawn_rewards;
  pending_rewards = s'.pending_rewards;
}

module _ (c : Config) where
  pub add_share-KeepsStakes :
      (who : AccountId) (a : Balance) (s s' : State c)
      → add_share c who a s ≡ ok s'
      → KeepsStakes s s'
  unfolding add_share
  add_share-KeepsStakes who a s s' e = ground arith

  claim_from-KeepsStakes :
      (who : AccountId) (i : Option (Balance × Withdrawn)) (p : Option PoolInfo) (s s' : State c)
      → claim_from c who i p s ≡ ok s'
      → KeepsStakes s s'
  unfolding claim_from
  claim_from-KeepsStakes who none p s s' e = ground arith
  claim_from-KeepsStakes who (some i) none s s' e = ground arith
  claim_from-KeepsStakes who (some i) (some p) s s' e = ground arith

  pub claim_rewards-KeepsStakes :
      (who : AccountId) (s s' : State c) → claim_rewards c who s ≡ ok s' → KeepsStakes s s'
  unfolding claim_rewards
  claim_rewards-KeepsStakes who s s' e =
      claim_from-KeepsStakes who (get? who s.shares_and_withdrawn_rewards)
        s.staking_reward_pool_info s s' e

  remove_from-KeepsStakes :
      (who : AccountId) (a : Balance) (i : Option (Balance × Withdrawn)) (s s' : State c)
      → remove_from c who a i s ≡ ok s'
      → KeepsStakes s s'
  unfolding remove_from
  remove_from-KeepsStakes who a none s s' e = ground arith
  remove_from-KeepsStakes who a (some i) s s' e = ground arith

  pub remove_share-KeepsStakes :
      (who : AccountId) (a : Balance) (s s' : State c)
      → remove_share c who a s ≡ ok s'
      → KeepsStakes s s'
  unfolding remove_share
  remove_share-KeepsStakes who a s s' e = elim (Bool-cases (a == 0)) [
    | inl nothing ↦ ground arith
    | inr something ↦
        let (t, claimed, e') = >>=-eq_ok (claim_rewards c who s) _ (rw something at e) in
        ground (
          arith,
          claim_rewards-KeepsStakes who s t claimed,
          remove_from-KeepsStakes who a (get? who t.shares_and_withdrawn_rewards) t s' e',
        )
  ]
