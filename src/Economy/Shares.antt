-- ===== src/Economy/Shares.antt =====
-- pallets/economy/src/lib.rs: the shares of the innovation staking pool and its rewards.
use versus_project_metaverse.Prelude.{
  ◌-◌, Option, none, some, [], ◌∷◌, ok, panic, ◌>>=◌, leb, ◌==◌, if◌then◌else◌, nat_eq, min,
  unwrap_or, u128_max, u256_max, saturating_add, saturating_mul, checked_div,
}
use versus_project_metaverse.Prelude.Maps.{Map, get?, get_or, insert, remove}
use versus_project_metaverse.Primitives.{AccountId, Balance, FungibleTokenId, token_eq}
use versus_project_metaverse.Economy.Types
use versus_project_metaverse.Economy.Types.{Result}

abbrev pub Rewards : Type 0
Rewards = Map FungibleTokenId (Balance × Balance)

abbrev pub Withdrawn : Type 0
Withdrawn = Map FungibleTokenId Balance

abbrev pub Pending : Type 0
Pending = Map AccountId (Map FungibleTokenId Balance)

-- `U256::as_u128` panics where the number does not fit.
abbrev pub as_u128 : Balance → Result Balance
as_u128 n = if leb n u128_max then ok n else panic

-- a * b / d by way of `U256`; a division by zero gives zero
unfoldable pub proportion : Balance → Balance → Balance → Result Balance
proportion a b d = as_u128 (unwrap_or 0 (checked_div (saturating_mul u256_max a b) d))

-- `and_modify(|current| current + amount).or_insert(amount)`
unfoldable pub add_to : FungibleTokenId → Balance → Withdrawn → Withdrawn
add_to currency amount m =
    insert currency
      (elim (get? currency m) [
        | none ↦ amount
        | some current ↦ saturating_add u128_max current amount
      ])
      m

unfoldable pub reward_inflation : Balance → Balance → Balance → Result Balance
unfolding proportion
reward_inflation add_amount initial_total_shares total_reward =
    if initial_total_shares == 0
    then ok 0
    else proportion add_amount total_reward initial_total_shares

-- The rewards with the inflation in them, and the inflation of each currency.
unfoldable pub inflate : Balance → Balance → Rewards → Result (Rewards × Withdrawn)
inflate add_amount initial_total_shares [] = ok ([], [])
inflate add_amount initial_total_shares ((currency, (total_reward, total_withdrawn)) ∷ rewards) = do
  inflation ← reward_inflation add_amount initial_total_shares total_reward
  (rest, inflations) ← inflate add_amount initial_total_shares rewards
  ok (
    (
      currency,
      (
        saturating_add u128_max total_reward inflation,
        saturating_add u128_max total_withdrawn inflation,
      ),
    )
        ∷ rest,
    (currency, inflation) ∷ inflations,
  )

unfoldable pub add_inflations : Withdrawn → Withdrawn → Withdrawn
unfolding add_to
add_inflations [] withdrawn = withdrawn
add_inflations ((currency, inflation) ∷ inflations) withdrawn =
    add_inflations inflations (add_to currency inflation withdrawn)

abbrev pub default_pool : Types.PoolInfo
default_pool = record { total_shares = 0; rewards = [] }

unfoldable pub reward_to_withdraw : Balance → Balance → Balance → Balance → Balance → Result Balance
unfolding proportion
reward_to_withdraw share total_reward total_shares withdrawn_reward total_withdrawn_reward = do
  total_reward_proportion ← proportion share total_reward total_shares
  ok (min (total_reward_proportion - withdrawn_reward) (total_reward - total_withdrawn_reward))

unfoldable pub reward_payout : AccountId → FungibleTokenId → Balance → Pending → Pending
unfolding add_to
reward_payout who currency payout_amount pending =
    if payout_amount == 0
    then pending
    else insert who (add_to currency payout_amount (get_or [] who pending)) pending

-- What `claim_one` changes: the account's withdrawn rewards, the total withdrawn of the currency,
-- and the pending rewards.
unfoldable pub claim_one :
    AccountId
    → Withdrawn
    → FungibleTokenId
    → Balance
    → Balance
    → Balance
    → Balance
    → Pending
    → Result (Withdrawn × Balance × Pending)
claim_one who withdrawn currency share total_reward total_shares total_withdrawn pending = do
  let withdrawn_reward = get_or 0 currency withdrawn
  reward ← reward_to_withdraw share total_reward total_shares withdrawn_reward total_withdrawn
  ok (
      if reward == 0 then (withdrawn, total_withdrawn, pending) else (
        insert currency (saturating_add u128_max withdrawn_reward reward) withdrawn,
        saturating_add u128_max total_withdrawn reward,
        reward_payout who currency reward pending,
      ))

unfoldable pub claim_each :
    AccountId
    → Balance
    → Balance
    → Rewards
    → Withdrawn
    → Pending
    → Result (Rewards × Withdrawn × Pending)
claim_each who share total_shares [] withdrawn pending = ok ([], withdrawn, pending)
claim_each who share total_shares ((currency, (reward, paid)) ∷ rewards) withdrawn pending = do
  (withdrawn', paid', pending') ←
      claim_one who withdrawn currency share reward total_shares paid pending
  (rewards', withdrawn'', pending'') ← claim_each who share total_shares rewards withdrawn' pending'
  ok ((currency, (reward, paid')) ∷ rewards', withdrawn'', pending'')

-- Takes a withdrawn reward out of the pool; a currency with no reward left goes.
unfoldable pub drop_reward : FungibleTokenId → Balance → Rewards → Rewards
drop_reward currency amount rewards = elim (get? currency rewards) [
  | none ↦ rewards
  | some (total_reward, total_withdrawn) ↦
      if total_reward - amount == 0
      then remove currency rewards
      else insert currency (total_reward - amount, total_withdrawn - amount) rewards
]

unfoldable pub remove_each : Balance → Balance → Withdrawn → Rewards → Result (Rewards × Withdrawn)
remove_each remove_amount share [] rewards = ok (rewards, [])
remove_each remove_amount share ((currency, withdrawn_reward) ∷ withdrawn) rewards = do
  to_remove ← proportion remove_amount withdrawn_reward share
  (rewards', withdrawn') ←
      remove_each remove_amount share withdrawn (drop_reward currency to_remove rewards)
  ok (rewards', (currency, withdrawn_reward - to_remove) ∷ withdrawn')

-- A pool with no share left is removed.
unfoldable pub shrink_pool :
    Balance
    → Balance
    → Withdrawn
    → Option Types.PoolInfo
    → Result (Option Types.PoolInfo × Withdrawn)
shrink_pool remove_amount share withdrawn none = ok (none, withdrawn)
shrink_pool remove_amount share withdrawn (some pool) = do
  (rewards, withdrawn') ← remove_each remove_amount share withdrawn pool.rewards
  let total_shares = pool.total_shares - remove_amount
  ok (
    if total_shares == 0
        then none
        else some (record { total_shares = total_shares; rewards = rewards }),
    withdrawn',
  )

module _ (c : Types.Config) where
  unfoldable pub add_share : AccountId → Balance → Types.State c → Result (Types.State c)
  add_share who add_amount s =
      let pool = unwrap_or default_pool s.staking_reward_pool_info in
      let info : Balance × Withdrawn = get_or (0, []) who s.shares_and_withdrawn_rewards in
      if add_amount == 0 then ok s else do
        (rewards, inflations) ← inflate add_amount pool.total_shares pool.rewards
        ok (record s {
          staking_reward_pool_info = some (record {
            total_shares = saturating_add u128_max pool.total_shares add_amount;
            rewards = rewards;
          });
          shares_and_withdrawn_rewards =
              insert who
                (saturating_add u128_max info.0 add_amount, add_inflations inflations info.1)
                s.shares_and_withdrawn_rewards;
        })

  -- `claim_rewards` on the share of the account and on the pool, where both are there.
  unfoldable pub claim_from :
      AccountId
      → Option (Balance × Withdrawn)
      → Option Types.PoolInfo
      → Types.State c
      → Result (Types.State c)
  claim_from who none _ s = ok s
  claim_from who (some (share, withdrawn)) none s = ok s
  claim_from who (some (share, withdrawn)) (some pool) s = if share == 0 then ok s else do
    (rewards, withdrawn', pending) ←
        claim_each who share pool.total_shares pool.rewards withdrawn s.pending_rewards
    ok (record s {
      staking_reward_pool_info = some (record pool { rewards = rewards });
      shares_and_withdrawn_rewards = insert who (share, withdrawn') s.shares_and_withdrawn_rewards;
      pending_rewards = pending;
    })

  unfoldable pub claim_rewards : AccountId → Types.State c → Result (Types.State c)
  unfolding claim_from
  claim_rewards who s =
      claim_from who (get? who s.shares_and_withdrawn_rewards) s.staking_reward_pool_info s

  -- `remove_share` on the share of the account, after the claim.
  unfoldable pub remove_from :
      AccountId → Balance → Option (Balance × Withdrawn) → Types.State c → Result (Types.State c)
  remove_from who amount none s = ok s
  remove_from who amount (some (share, withdrawn)) s =
      let remove_amount = min amount share in
      if remove_amount == 0
      then ok
          (record s { shares_and_withdrawn_rewards = remove who s.shares_and_withdrawn_rewards })
      else do
        (pool, withdrawn') ← shrink_pool remove_amount share withdrawn s.staking_reward_pool_info
        ok (record s {
          staking_reward_pool_info = pool;
          shares_and_withdrawn_rewards =
              if share - remove_amount == 0
              then remove who s.shares_and_withdrawn_rewards
              else insert who (share - remove_amount, withdrawn') s.shares_and_withdrawn_rewards;
        })

  unfoldable pub remove_share : AccountId → Balance → Types.State c → Result (Types.State c)
  remove_share who remove_amount s = if remove_amount == 0 then ok s else do
    s' ← claim_rewards who s
    remove_from who remove_amount (get? who s'.shares_and_withdrawn_rewards) s'
