-- ===== src/Spp/Redeem.antt =====
-- pallets/spp/src/lib.rs: `redeem` and the three queues that it writes.
use versus_project_metaverse.Prelude.{
  ℕ, ◌+◌, Option, none, some, List, [], ◌∷◌, ◌++◌, ok, module_error, ◌>>=◌, ◌>>◌, ensure, ok_or,
  leb, ltb, if◌then◌else◌, nat_eq, pair_eq, u128_max, u32_max, checked_add, checked_sub,
}
use versus_project_metaverse.Prelude.Maps.{get?, get_or, insert}
use versus_project_metaverse.Primitives.{AccountId, Balance, FungibleTokenId, token_beq, token_eq}
use versus_project_metaverse.Spp.Types
use versus_project_metaverse.Spp.Types.{
  Config, State, Result, PoolId, QueueId, StakingRound, staking_round_eq, Requests, era, round,
  epoch, hour,
}
use versus_project_metaverse.Spp.Pools.{collect_fee, exchange}

unfoldable pub sum_u32 : ℕ → ℕ → Result ℕ
sum_u32 a b = ok_or (checked_add u32_max a b) (module_error Types.arithmetic_overflow)

unfoldable pub calculate_next_staking_round : StakingRound → StakingRound → Result StakingRound
calculate_next_staking_round (era a) (era b) = do n ← sum_u32 a b; ok (era n)
calculate_next_staking_round (round a) (round b) = do n ← sum_u32 a b; ok (round n)
calculate_next_staking_round (epoch a) (epoch b) = do n ← sum_u32 a b; ok (epoch n)
calculate_next_staking_round (hour a) (hour b) = do n ← sum_u32 a b; ok (hour n)
calculate_next_staking_round _ _ = Types.fail Types.unexpected

abbrev pub length : List QueueId → ℕ
length [] = 0
length (_ ∷ ids) = 1 + length ids

-- `BoundedVec::try_push`
unfoldable pub try_push : ℕ → QueueId → List QueueId → Result (List QueueId)
try_push bound id ids =
    if ltb (length ids) bound then ok (ids ++ (id ∷ [])) else Types.fail Types.too_many_redeems

-- A request joins those of its user, or of its round.
unfoldable pub add_request :
    {T : Type 0} → ℕ → QueueId → Balance → T → Option (Requests T) → Result (Requests T)
add_request bound id amount tag none = do ids ← try_push bound id []; ok (amount, (ids, tag))
add_request bound id amount _ (some (need_unlocked, (existing, tag))) = do
  ids ← try_push bound id existing
  total ← ok_or (checked_add u128_max need_unlocked amount) (module_error Types.arithmetic_overflow)
  ok (total, (ids, tag))

module _ (c : Config) where
  -- The request enters the queue of the currency, the user's and the round's.
  unfoldable pub enqueue :
      AccountId → FungibleTokenId → Balance → StakingRound → State c → Result (State c)
  enqueue who currency amount staking_round s = do
    let id = get_or 0 currency s.queue_next_id
    of_user ←
        add_request c.maximum_queue id amount tt (get? (who, currency) s.user_currency_redeem_queue)
    of_round ←
        add_request c.maximum_queue id amount currency
          (get? (staking_round, currency) s.staking_round_redeem_queue)
    next ← sum_u32 id 1
    ok (record s {
      currency_redeem_queue =
          insert (currency, id) (who, (amount, staking_round)) s.currency_redeem_queue;
      user_currency_redeem_queue = insert (who, currency) of_user s.user_currency_redeem_queue;
      staking_round_redeem_queue =
          insert (staking_round, currency) of_round s.staking_round_redeem_queue;
      queue_next_id = insert currency next s.queue_next_id;
    })

  -- The match on the current staking round.
  unfoldable pub burn_and_enqueue :
      AccountId
      → PoolId
      → FungibleTokenId
      → FungibleTokenId
      → Balance
      → Balance
      → State c
      → Result (State c)
  burn_and_enqueue who pool_id v_currency currency amount_after_fee currency_amount s = do
    staking_round ←
        ok_or (get? currency s.current_staking_round) (module_error Types.no_current_staking_round)
    duration ←
        ok_or (get? currency s.unlock_duration) (module_error Types.unlock_duration_not_found)
    new_staking_round ← calculate_next_staking_round duration staking_round
    ledger ← c.withdraw v_currency who amount_after_fee s.ledger
    pool_total ←
        ok_or (checked_sub (get_or 0 pool_id s.pool_ledger) currency_amount)
          (module_error Types.arithmetic_overflow)
    enqueue who currency currency_amount new_staking_round
        (record s { ledger = ledger; pool_ledger = insert pool_id pool_total s.pool_ledger })

  -- The fee, the exchange, and what follows.
  unfoldable pub charged :
      AccountId → PoolId → FungibleTokenId → FungibleTokenId → Balance → State c → Result (State c)
  charged who pool_id v_currency currency r_amount s = do
    (amount_after_fee, ledger) ← collect_fee c s.redeem_rate who v_currency r_amount s.ledger
    currency_amount ←
        exchange amount_after_fee (get_or 0 currency s.network_ledger)
          (c.total_issuance v_currency ledger)
    s' ←
        burn_and_enqueue who pool_id v_currency currency amount_after_fee currency_amount
          (record s { ledger = ledger })
    ok (Types.deposit_event (Types.redeemed who pool_id amount_after_fee) s')

  unfoldable pub redeem : c.Origin → PoolId → FungibleTokenId → Balance → State c → Result (State c)
  redeem origin pool_id v_currency r_amount s = do
    who ← c.ensure_signed origin
    ensure (leb (get_or 0 v_currency s.minimum_redeem) r_amount) Types.below_minimum_redeem
    currency ← ok_or (c.convert_to_currency v_currency) (module_error Types.not_support_token_type)
    pool_instance ← ok_or (get? pool_id s.pool) (module_error Types.pool_does_not_exist)
    ensure (token_beq currency pool_instance.currency_id) Types.currency_is_not_supported
    charged who pool_id v_currency currency r_amount s
