-- ===== src/Economy/Rewards/Claims.antt =====
-- pallets/economy/src/lib.rs: `claim_rewards` moves rewards from the pool to the pending rewards.
use versus_project_metaverse.Prelude.{
  ℕ, ◌+◌, ◌≤◌, ◌≡◌, ◌≢◌, Option, none, some, [], ◌∷◌, ok, arith, u128_max, >>=-eq_ok, min, nat_eq,
  ◌==◌, if◌then◌else◌, refl, Bool-cases, Option-cases, inl, inr,
}
use versus_project_metaverse.Prelude.Maps.{get?, get_or, insert, get?-insert, get?-insert_self}
use versus_project_metaverse.Prelude.Totals.{total}
use versus_project_metaverse.Primitives.{
  AccountId, Balance, FungibleTokenId, token_eq, token_beq, token_beq_iff,
}
use versus_project_metaverse.Economy.Types.{Config, State, PoolInfo}
use versus_project_metaverse.Economy.Shares.{
  Rewards, Withdrawn, Pending, reward_to_withdraw, claim_one, claim_each, claim_from, claim_rewards,
  reward_payout, add_to,
}
use versus_project_metaverse.Economy.Rewards.Funded.{
  IsFunded, reward_to_withdraw-le, claim_each-IsFunded,
}

-- What the pending rewards hold for an account.
abbrev pub owed : FungibleTokenId → AccountId → Pending → ℕ
owed currency who pending = get_or 0 currency (get_or [] who pending)

-- What the pool records as withdrawn.
abbrev pub paid_of : FungibleTokenId → FungibleTokenId → Balance × Balance → ℕ
paid_of currency k (_, total_withdrawn) = if token_beq k currency then total_withdrawn else 0

reward_payout-owed :
    (who : AccountId) (k j : FungibleTokenId) (a : Balance) (p : Pending)
    → owed j who (reward_payout who k a p) ≤ owed j who p + (if token_beq k j then a else 0)
unfolding reward_payout add_to
reward_payout-owed who k j a p =
    let mine = get_or [] who p in
    elim (Option-cases (get? k mine)) [
      | inl missing ↦ ground (
        arith,
        missing,
        get?-insert_self who (insert k a mine) p,
        get?-insert j k a mine,
        token_beq_iff k j,
      )
      | inr (b, found) ↦ ground (
        arith,
        found,
        get?-insert_self who (insert k (min (b + a) u128_max) mine) p,
        get?-insert j k (min (b + a) u128_max) mine,
        token_beq_iff k j,
      )
    ]

reward_payout-others :
    (who x : AccountId) (k : FungibleTokenId) (a : Balance) (p : Pending)
    → who ≢ x
    → get? x (reward_payout who k a p) ≡ get? x p
unfolding reward_payout
reward_payout-others who x k a p ne =
    ground (arith, get?-insert x who (add_to k a (get_or [] who p)) p)

claim_one_paid :
    (who : AccountId) (ws ws' : Withdrawn) (k j : FungibleTokenId) (share r t w w' : Balance)
    (p p' : Pending)
    → claim_one who ws k share r t w p ≡ ok (ws', w', p')
    → w ≤ r
    → r ≤ u128_max
    → owed j who p' + (if token_beq k j then w else 0)
      ≤ owed j who p + (if token_beq k j then w' else 0)
unfolding claim_one
claim_one_paid who ws ws' k j share r t w w' p p' e h q =
    let old = get_or 0 k ws in
    let (reward, found, e') = >>=-eq_ok (reward_to_withdraw share r t old w) _ e in
    ground (arith, reward_to_withdraw-le share r t old w found, reward_payout-owed who k j reward p)

claim_one_others :
    (who x : AccountId) (ws ws' : Withdrawn) (k : FungibleTokenId) (share r t w w' : Balance)
    (p p' : Pending)
    → claim_one who ws k share r t w p ≡ ok (ws', w', p')
    → who ≢ x
    → get? x p' ≡ get? x p
unfolding claim_one
claim_one_others who x ws ws' k share r t w w' p p' e ne =
    let (reward, found, e') = >>=-eq_ok (reward_to_withdraw share r t (get_or 0 k ws) w) _ e in
    ground (arith, reward_payout-others who x k reward p ne)

claim_each_paid :
    (who : AccountId) (j : FungibleTokenId) (share t : Balance) (m m' : Rewards)
    (ws ws' : Withdrawn) (p p' : Pending)
    → claim_each who share t m ws p ≡ ok (m', ws', p')
    → IsFunded m
    → owed j who p' + total (paid_of j) m ≤ owed j who p + total (paid_of j) m'
unfolding claim_each total
claim_each_paid who j share t [] m' ws ws' p p' e h = ground arith
claim_each_paid who j share t ((k, (r, w)) ∷ m) m' ws ws' p p' e h =
    let ((vs, v, q), one, e') = >>=-eq_ok (claim_one who ws k share r t w p) _ e in
    let ((n, us, o), rest, e'') = >>=-eq_ok (claim_each who share t m vs q) _ e' in
    ground (
      arith,
      claim_one_paid who ws vs k j share r t w v p q one,
      claim_each_paid who j share t m n vs us q o rest,
    )

claim_each_others :
    (who x : AccountId) (share t : Balance) (m m' : Rewards) (ws ws' : Withdrawn) (p p' : Pending)
    → claim_each who share t m ws p ≡ ok (m', ws', p')
    → who ≢ x
    → get? x p' ≡ get? x p
unfolding claim_each
claim_each_others who x share t [] m' ws ws' p p' e ne = ground arith
claim_each_others who x share t ((k, (r, w)) ∷ m) m' ws ws' p p' e ne =
    let ((vs, v, q), one, e') = >>=-eq_ok (claim_one who ws k share r t w p) _ e in
    let ((n, us, o), rest, e'') = >>=-eq_ok (claim_each who share t m vs q) _ e' in
    ground (
      arith,
      claim_one_others who x ws vs k share r t w v p q one ne,
      claim_each_others who x share t m n vs us q o rest ne,
    )

-- What the pool records as withdrawn of a currency.
abbrev pub paid : FungibleTokenId → Option PoolInfo → ℕ
paid currency none = 0
paid currency (some pool) = total (paid_of currency) pool.rewards

abbrev pub PoolIsFunded : Option PoolInfo → Type 0
PoolIsFunded none = Unit
PoolIsFunded (some pool) = IsFunded pool.rewards

module _ (c : Config) where
  pub claim_from-PoolIsFunded :
      (who : AccountId) (i : Option (Balance × Withdrawn)) (p : Option PoolInfo) (s s' : State c)
      → claim_from c who i p s ≡ ok s'
      → PoolIsFunded p
      → PoolIsFunded s.staking_reward_pool_info
      → PoolIsFunded s'.staking_reward_pool_info
  unfolding claim_from
  claim_from-PoolIsFunded who none p s s' e h q = ground arith
  claim_from-PoolIsFunded who (some i) none s s' e h q = ground arith
  claim_from-PoolIsFunded who (some (share, ws)) (some pool) s s' e h q =
      elim (Bool-cases (share == 0)) [
        | inl nothing ↦ ground arith
        | inr something ↦
            let ((m, us, o), each, e') =
              >>=-eq_ok (claim_each who share pool.total_shares pool.rewards ws s.pending_rewards) _
                (rw something at e) in
            ground (
              arith,
              claim_each-IsFunded who share pool.total_shares pool.rewards m ws us s.pending_rewards
                  o each,
            )
      ]

  claim_from-paid :
      (who : AccountId) (j : FungibleTokenId) (i : Option (Balance × Withdrawn))
      (p : Option PoolInfo) (s s' : State c)
      → s.staking_reward_pool_info ≡ p
      → claim_from c who i p s ≡ ok s'
      → PoolIsFunded p
      → owed j who s'.pending_rewards + paid j p
        ≤ owed j who s.pending_rewards + paid j s'.staking_reward_pool_info
  unfolding claim_from
  claim_from-paid who j none p s s' same e h = ground arith
  claim_from-paid who j (some i) none s s' same e h = ground arith
  claim_from-paid who j (some (share, ws)) (some pool) s s' same e h =
      elim (Bool-cases (share == 0)) [
        | inl nothing ↦ ground arith
        | inr something ↦
            let ((m, us, o), each, e') =
              >>=-eq_ok (claim_each who share pool.total_shares pool.rewards ws s.pending_rewards) _
                (rw something at e) in
            ground (
              arith,
              claim_each_paid who j share pool.total_shares pool.rewards m ws us s.pending_rewards o
                  each,
            )
      ]

  claim_from_others :
      (who x : AccountId) (i : Option (Balance × Withdrawn)) (p : Option PoolInfo) (s s' : State c)
      → claim_from c who i p s ≡ ok s'
      → who ≢ x
      → get? x s'.pending_rewards ≡ get? x s.pending_rewards
  unfolding claim_from
  claim_from_others who x none p s s' e ne = ground arith
  claim_from_others who x (some i) none s s' e ne = ground arith
  claim_from_others who x (some (share, ws)) (some pool) s s' e ne =
      elim (Bool-cases (share == 0)) [
        | inl nothing ↦ ground arith
        | inr something ↦
            let ((m, us, o), each, e') =
              >>=-eq_ok (claim_each who share pool.total_shares pool.rewards ws s.pending_rewards) _
                (rw something at e) in
            ground (
              arith,
              claim_each_others who x share pool.total_shares pool.rewards m ws us s.pending_rewards
                  o each ne,
            )
      ]

  -- In a pool where no currency is over-withdrawn, `claim_rewards` adds to the account's pending
  -- rewards of a currency at most what it adds to the withdrawn rewards of the pool.
  pub claim_rewards-paid :
      (who : AccountId) (j : FungibleTokenId) (s s' : State c)
      → claim_rewards c who s ≡ ok s'
      → PoolIsFunded s.staking_reward_pool_info
      → owed j who s'.pending_rewards + paid j s.staking_reward_pool_info
        ≤ owed j who s.pending_rewards + paid j s'.staking_reward_pool_info
  unfolding claim_rewards
  claim_rewards-paid who j s s' e h =
      claim_from-paid who j (get? who s.shares_and_withdrawn_rewards) s.staking_reward_pool_info s
        s' refl e h

  -- `claim_rewards` leaves the pending rewards of every other account alone.
  pub claim_rewards_others :
      (who x : AccountId) (s s' : State c)
      → claim_rewards c who s ≡ ok s'
      → who ≢ x
      → get? x s'.pending_rewards ≡ get? x s.pending_rewards
  unfolding claim_rewards
  claim_rewards_others who x s s' e ne =
      claim_from_others who x (get? who s.shares_and_withdrawn_rewards) s.staking_reward_pool_info s
        s' e ne
