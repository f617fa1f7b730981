-- ===== src/Economy/ShareTotals.antt =====
-- pallets/economy/src/lib.rs: the shares of the pool against the shares of the accounts.
use versus_project_metaverse.Prelude.{
  ℕ, ◌+◌, ◌-◌, ◌≤◌, ◌<◌, ◌≡◌, Option, none, some, [], ok, arith, u128_max, >>=-eq_ok, Outcome-cases,
  Bool-cases, inl, inr, min, nat_eq, ◌==◌, refl, unwrap_or,
}
use versus_project_metaverse.Prelude.Maps.{get?, get_or}
use versus_project_metaverse.Prelude.Totals.{total, total-insert, total-remove, held-le-total}
use versus_project_metaverse.Primitives.{AccountId, Balance}
use versus_project_metaverse.Economy.Types.{Config, State, PoolInfo}
use versus_project_metaverse.Economy.Shares.{
  Withdrawn, add_share, claim_from, claim_rewards, shrink_pool, remove_from, remove_share,
  add_inflations, inflate, default_pool, claim_each,
}

abbrev pub share_of : AccountId → Balance × Withdrawn → ℕ
share_of _ (share, _) = share

abbrev pub pool_shares : Option PoolInfo → ℕ
pool_shares none = 0
pool_shares (some pool) = pool.total_shares

-- The pool's total is the sum of the accounts' shares.
abbrev pub IsShared : {c : Config} → State c → Type 0
IsShared s = pool_shares s.staking_reward_pool_info ≡ total share_of s.shares_and_withdrawn_rewards

shrink_pool-pool_shares :
    (a share : Balance) (ws ws' : Withdrawn) (p p' : Option PoolInfo)
    → shrink_pool a share ws p ≡ ok (p', ws')
    → pool_shares p' ≡ pool_shares p - a
unfolding shrink_pool
shrink_pool-pool_shares a share ws ws' none p' e = ground arith
shrink_pool-pool_shares a share ws ws' (some pool) p' e = ground arith

module _ (c : Config) where
  -- A successful `add_share`, with the sum of all shares still in a u128, keeps the pool's total
  -- of shares equal to the sum of the accounts' shares.
  pub add_share-IsShared :
      (who : AccountId) (a : Balance) (s s' : State c)
      → total share_of s.shares_and_withdrawn_rewards + a ≤ u128_max
      → add_share c who a s ≡ ok s'
      → IsShared s
      → IsShared s'
  unfolding add_share
  add_share-IsShared who a s s' fits e h =
      let pool = unwrap_or default_pool s.staking_reward_pool_info in
      let info : Balance × Withdrawn = get_or (0, []) who s.shares_and_withdrawn_rewards in
      elim (Outcome-cases (inflate a pool.total_shares pool.rewards)) [
        | inl ((m, i), inflated) ↦ ground (
          arith,
          inflated,
          held-le-total share_of who s.shares_and_withdrawn_rewards,
          total-insert share_of who (min (info.0 + a) u128_max, add_inflations i info.1)
              s.shares_and_withdrawn_rewards,
        )
        | inr failed ↦ ground (arith, failed)
      ]

  claim_from-IsShared :
      (who : AccountId) (i : Option (Balance × Withdrawn)) (p : Option PoolInfo) (s s' : State c)
      → get? who s.shares_and_withdrawn_rewards ≡ i
      → s.staking_reward_pool_info ≡ p
      → claim_from c who i p s ≡ ok s'
      → IsShared s
      → IsShared s'
  unfolding claim_from
  claim_from-IsShared who none p s s' mine same e h = ground arith
  claim_from-IsShared who (some i) none s s' mine same e h = ground arith
  claim_from-IsShared who (some (share, ws)) (some pool) s s' mine same e h =
      elim (Bool-cases (share == 0)) [
        | inl nothing ↦ ground arith
        | inr something ↦
            let ((m, us, o), each, e') =
              >>=-eq_ok (claim_each who share pool.total_shares pool.rewards ws s.pending_rewards) _
                (rw something at e) in
            ground (arith, total-insert share_of who (share, us) s.shares_and_withdrawn_rewards)
      ]

  pub claim_rewards-IsShared :
      (who : AccountId) (s s' : State c) → claim_rewards c who s ≡ ok s' → IsShared s → IsShared s'
  unfolding claim_rewards
  claim_rewards-IsShared who s s' e h =
      claim_from-IsShared who (get? who s.shares_and_withdrawn_rewards) s.staking_reward_pool_info s
        s' refl refl e h

  remove_from-IsShared :
      (who : AccountId) (a : Balance) (i : Option (Balance × Withdrawn)) (s s' : State c)
      → 0 < a
      → get? who s.shares_and_withdrawn_rewards ≡ i
      → remove_from c who a i s ≡ ok s'
      → IsShared s
      → IsShared s'
  unfolding remove_from
  remove_from-IsShared who a none s s' pos mine e h = ground arith
  remove_from-IsShared who a (some (share, ws)) s s' pos mine e h =
      elim (Outcome-cases (shrink_pool (min a share) share ws s.staking_reward_pool_info)) [
        | inl ((p, us), shrunk) ↦ ground (
          arith,
          shrunk,
          shrink_pool-pool_shares (min a share) share ws us s.staking_reward_pool_info p shrunk,
          total-insert share_of who (share - min a share, us) s.shares_and_withdrawn_rewards,
          total-remove share_of who s.shares_and_withdrawn_rewards,
        )
        | inr failed ↦
            ground (arith, failed, total-remove share_of who s.shares_and_withdrawn_rewards)
      ]

  -- A successful `remove_share` keeps the pool's total of shares equal to the sum of the accounts'
  -- shares.
  pub remove_share-IsShared :
      (who : AccountId) (a : Balance) (s s' : State c)
      → remove_share c who a s ≡ ok s'
      → IsShared s
      → IsShared s'
  unfolding remove_share
  remove_share-IsShared who a s s' e h = elim (Bool-cases (a == 0)) [
    | inl nothing ↦ ground arith
    | inr something ↦
        let (t, claimed, e') = >>=-eq_ok (claim_rewards c who s) _ (rw something at e) in
        remove_from-IsShared who a (get? who t.shares_and_withdrawn_rewards) t s' (ground arith)
          refl e' (claim_rewards-IsShared who s t claimed h)
  ]
