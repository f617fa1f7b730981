-- ===== src/Economy/EraLaws.antt =====
-- pallets/economy/src/lib.rs: the era index, and what an era adds to the reward pool.
use versus_project_metaverse.Prelude.{
  ℕ, ◌+◌, ◌-◌, ◌*◌, ◌/◌, ◌≤◌, ◌<◌, ◌≡◌, Option, none, some, ok, arith, nat_eq, Option-cases, inl,
  inr, u32_max, u128_max, min,
}
use versus_project_metaverse.Prelude.Maps.{get?, get_or, get?-insert_self}
use versus_project_metaverse.Primitives.{
  Balance, BlockNumber, EraIndex, FungibleTokenId, native_token, token_eq,
}
use versus_project_metaverse.Economy.Types.{Config, State, PoolInfo}
use versus_project_metaverse.Economy.Rewards.Funded.{get?-IsFunded}
use versus_project_metaverse.Economy.Rewards.Claims.{PoolIsFunded}
use versus_project_metaverse.Economy.Eras.{
  era_index, accumulate_reward, era_reward, handle_reward_distribution_to_reward_pool_every_era,
  update_current_era,
}

div_bounds : (n f : ℕ) → 0 < f → (n / f * f ≤ n) × (n < (n / f + 1) * f) × (n / f ≤ n)
div_bounds n f pos = (grind arith, grind arith, grind arith)

-- With a frequency, and the last update not ahead of the block, `get_era_index` counts the whole
-- eras that have passed since the last update.
pub get_era_index_bounds :
    (block last frequency : BlockNumber)
    → 0 < frequency
    → last ≤ block
    → block ≤ u32_max
    → (last + era_index block last frequency * frequency ≤ block)
      × (block < last + (era_index block last frequency + 1) * frequency)
unfolding era_index
get_era_index_bounds block last frequency pos before fits =
    ground (arith, div_bounds (block - last) frequency pos)

module _ (c : Config) where
  -- The total reward that the pool holds of a currency.
  abbrev pub reward_of : FungibleTokenId → Option PoolInfo → Balance
  reward_of k none = 0
  reward_of k (some pool) = (get_or (0, 0) k pool.rewards).0

  -- Where the era stays in a u32, and of no reward of the pool more is withdrawn than its total, which
  -- fits a u128, a successful `update_current_era` by a positive index moves the era by the index and
  -- the last update to the current block. Where the payout account is not empty, the native reward of the
  -- pool grows by the reward per era times the index, or by the balance of the payout account if
  -- that is less, as far as a u128 goes.
  pub update_current_era_lem :
      (index : EraIndex) (s s' : State c)
      → 0 < index
      → s.current_era + index ≤ u32_max
      → PoolIsFunded s.staking_reward_pool_info
      → update_current_era c index s ≡ ok s'
      → let balance = c.free_balance c.reward_payout_account s.ledger in
        (s'.current_era ≡ s.current_era + index)
        × (s'.last_era_updated_block ≡ s.block_number)
        × (reward_of (native_token 0) s'.staking_reward_pool_info
            ≡ min
                (reward_of (native_token 0) s.staking_reward_pool_info
                  + min (min (s.estimated_staking_reward_per_era * index) u128_max) balance)
                u128_max)
  unfolding update_current_era handle_reward_distribution_to_reward_pool_every_era accumulate_reward
      era_reward
  update_current_era_lem index s s' pos fits funded e =
      let balance = c.free_balance c.reward_payout_account s.ledger in
      let a = min (min (s.estimated_staking_reward_per_era * index) u128_max) balance in
      elim (Option-cases s.staking_reward_pool_info) [
        | inl missing ↦ ground arith
        | inr (pool, found) ↦ elim (Option-cases (get? (native_token 0) pool.rewards)) [
          | inl fresh ↦
              ground (arith, found, fresh, get?-insert_self (native_token 0) (a, 0) pool.rewards)
          | inr ((r, w), there) ↦ ground (
            arith,
            found,
            there,
            get?-IsFunded (native_token 0) pool.rewards r w,
            get?-insert_self (native_token 0) (min (r + a) u128_max, w) pool.rewards,
          )
        ]
      ]
