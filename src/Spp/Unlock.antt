-- ===== src/Spp/Unlock.antt =====
-- pallets/spp/src/lib.rs: `update_queue_request` and the queue of a staking round.
use versus_project_metaverse.Prelude.{
  ℕ, ◌+◌, ◌-◌, ◌%◌, ◌^◌, Option, none, some, List, [], ◌∷◌, ok, err, panic, overflow, module_error,
  ◌>>=◌, ok_or, leb, ltb, ◌==◌, if◌then◌else◌, nat_eq, pair_eq, u128_max, checked_add, checked_sub,
}
use versus_project_metaverse.Prelude.Maps.{Map, get?, get_or, insert, remove, put}
use versus_project_metaverse.Primitives.{AccountId, Balance, EraIndex, FungibleTokenId, token_eq}
use versus_project_metaverse.Spp.Types
use versus_project_metaverse.Spp.Types.{
  Config, State, Result, QueueId, StakingRound, staking_round_eq, Requests, era, round, epoch, hour,
}
use versus_project_metaverse.Spp.Redeem.{sum_u32}

-- `Vec::retain` of the ids other than `id`
abbrev pub retain : QueueId → List QueueId → List QueueId
retain id [] = []
retain id (x ∷ ids) = if x == id then retain id ids else x ∷ retain id ids

-- A request is paid out of the requests that it stands with: nothing is left where the total is
-- its amount.
unfoldable pub close_request :
    {T : Type 0}
    → QueueId
    → Balance
    → Types.Error
    → Option (Requests T)
    → Result (Option (Requests T))
close_request id amount missing none = Types.fail missing
close_request id amount missing (some (total, (ids, tag))) = if total == amount then ok none else do
  rest ← ok_or (checked_sub total amount) (module_error Types.arithmetic_overflow)
  ok (some (rest, (retain id ids, tag)))

-- The same for a part of a request, whose id stays.
unfoldable pub lower_request :
    {T : Type 0} → Balance → Types.Error → Option (Requests T) → Result (Option (Requests T))
lower_request amount missing none = Types.fail missing
lower_request amount missing (some (total, (ids, tag))) = if total == amount then ok none else do
  rest ← ok_or (checked_sub total amount) (module_error Types.arithmetic_overflow)
  ok (some (rest, (ids, tag)))

unfoldable pub lower_entry :
    Balance
    → Option (AccountId × (Balance × StakingRound))
    → Result (Option (AccountId × (Balance × StakingRound)))
lower_entry amount none = Types.fail Types.currency_redeem_queue_not_found
lower_entry amount (some (account, (total, staking_round))) =
    if total == amount then ok none else do
      rest ← ok_or (checked_sub total amount) (module_error Types.arithmetic_overflow)
      ok (some (account, (rest, staking_round)))

-- The blocks of the unlock duration, whatever they count, and 0 without one.
unfoldable pub duration_of : Option StakingRound → ℕ
duration_of none = 0
duration_of (some (era n)) = n
duration_of (some (round n)) = n
duration_of (some (epoch n)) = n
duration_of (some (hour n)) = n

-- The next number, where the bound is past the last one.
unfoldable pub next_number : ℕ → ℕ → Result ℕ
next_number bound n = if ltb n bound then sum_u32 n 1 else ok n

unfoldable pub next_staking_round : ℕ → StakingRound → Result StakingRound
next_staking_round bound (era n) = do m ← next_number bound n; ok (era m)
next_staking_round bound (round n) = do m ← next_number bound n; ok (round m)
next_staking_round bound (epoch n) = do m ← next_number bound n; ok (epoch m)
next_staking_round bound (hour n) = do m ← next_number bound n; ok (hour m)

abbrev pub take : ℕ → List QueueId → List QueueId
take n [] = []
take n (id ∷ ids) = if n == 0 then [] else id ∷ take (n - 1) ids

module _ (c : Config) where
  -- The pool account receives what would leave the account below the existential deposit.
  unfoldable pub receiver : FungibleTokenId → AccountId → Balance → State c → Result AccountId
  receiver currency account unlock_amount s =
      if leb (c.minimum_balance currency) unlock_amount then ok account else do
        balance ←
            ok_or (checked_add u128_max (c.total_balance currency account s.ledger) unlock_amount)
              overflow
        ok (if ltb balance (c.minimum_balance currency) then c.pool_account else account)

  unfoldable pub pay_full :
      FungibleTokenId
      → AccountId
      → AccountId
      → QueueId
      → Balance
      → StakingRound
      → State c
      → Result (State c)
  pay_full currency account to id amount staking_round s = do
    ledger ← c.transfer currency c.pool_account to amount s.ledger
    of_round ←
        close_request id amount Types.staking_round_redeem_not_found
          (get? (staking_round, currency) s.staking_round_redeem_queue)
    of_user ←
        close_request id amount Types.user_currency_redeem_queue_not_found
          (get? (account, currency) s.user_currency_redeem_queue)
    ok (record s {
      ledger = ledger;
      currency_redeem_queue = remove (currency, id) s.currency_redeem_queue;
      staking_round_redeem_queue =
          put (staking_round, currency) of_round s.staking_round_redeem_queue;
      user_currency_redeem_queue = put (account, currency) of_user s.user_currency_redeem_queue;
    })

  unfoldable pub pay_part :
      FungibleTokenId
      → AccountId
      → AccountId
      → QueueId
      → Balance
      → StakingRound
      → State c
      → Result (State c)
  pay_part currency account to id amount staking_round s = do
    ledger ← c.transfer currency c.pool_account to amount s.ledger
    entry ← lower_entry amount (get? (currency, id) s.currency_redeem_queue)
    of_round ←
        lower_request amount Types.staking_round_redeem_not_found
          (get? (staking_round, currency) s.staking_round_redeem_queue)
    of_user ←
        lower_request amount Types.user_currency_redeem_queue_not_found
          (get? (account, currency) s.user_currency_redeem_queue)
    ok (record s {
      ledger = ledger;
      currency_redeem_queue = put (currency, id) entry s.currency_redeem_queue;
      staking_round_redeem_queue =
          put (staking_round, currency) of_round s.staking_round_redeem_queue;
      user_currency_redeem_queue = put (account, currency) of_user s.user_currency_redeem_queue;
    })

  -- The network ledger and the event after a payment of `amount`.
  unfoldable pub paid_out :
      FungibleTokenId → AccountId → QueueId → Balance → State c → Result (State c)
  paid_out currency to id amount s = do
    network_total ←
        ok_or (checked_sub (get_or 0 currency s.network_ledger) amount)
          (module_error Types.arithmetic_overflow)
    ok (
        Types.deposit_event (Types.redeem_success id currency to amount)
          (record s { network_ledger = insert currency network_total s.network_ledger }))

  -- The balance that is left to the pool account is computed to no end: it is at least the payment.
  unfoldable pub update_queue_request :
      FungibleTokenId
      → AccountId
      → QueueId
      → Balance
      → Balance
      → StakingRound
      → State c
      → Result (State c)
  update_queue_request currency account id unlock_amount pool_account_balance staking_round s = do
    to ← receiver currency account unlock_amount s
    (if leb unlock_amount pool_account_balance
        then (pay_full currency account to id unlock_amount staking_round s >>= λ s'.
            paid_out currency to id unlock_amount s')
        else (pay_part currency account to id pool_account_balance staking_round s >>= λ s'.
            paid_out currency to id pool_account_balance s'))

  -- The update is a transaction of its own, whose error is dropped.
  unfoldable pub attempted : State c → Result (State c) → Result (State c)
  attempted s (ok s') = ok s'
  attempted s (err e) = ok s
  attempted s panic = panic

  unfoldable pub process_entry :
      FungibleTokenId
      → QueueId
      → Option (AccountId × (Balance × StakingRound))
      → State c
      → Result (State c)
  unfolding attempted
  process_entry currency id none s = ok s
  process_entry currency id (some (account, (unlock_amount, staking_round))) s =
      let pool_account_balance = c.free_balance currency c.pool_account s.ledger in
      if pool_account_balance == 0
      then ok s
      else attempted s (
          update_queue_request currency account id unlock_amount pool_account_balance staking_round
            s)

  unfoldable pub process_each : FungibleTokenId → List QueueId → State c → Result (State c)
  process_each currency [] s = ok s
  process_each currency (id ∷ ids) s = do
    s' ← process_entry currency id (get? (currency, id) s.currency_redeem_queue) s
    process_each currency ids s'

  -- The last staking round where nothing waits in it; the sum of era and duration wraps on a u32.
  unfoldable pub advance : EraIndex → FungibleTokenId → State c → Result (State c)
  advance era_index currency s = do
    let bound = (era_index + duration_of (get? currency s.unlock_duration)) % 2 ^ 32
    last ← next_staking_round bound (get_or (era 0) currency s.last_staking_round)
    ok (record s { last_staking_round = insert currency last s.last_staking_round })

  unfoldable pub handle_update_staking_round :
      EraIndex → FungibleTokenId → State c → Result (State c)
  handle_update_staking_round era_index currency s =
      elim (get? (era era_index, currency) s.staking_round_redeem_queue) [
        | some (_, (existing_queue, currency_id)) ↦
            process_each currency_id (take s.iteration_limit existing_queue) s
        | none ↦ advance era_index currency s
      ]

  unfoldable pub handle_each :
      EraIndex → Map FungibleTokenId StakingRound → State c → Result (State c)
  handle_each era_index [] s = ok s
  handle_each era_index ((currency, _) ∷ rounds) s = do
    s' ← handle_update_staking_round era_index currency s
    handle_each era_index rounds s'

  unfoldable pub handle_redeem_requests : EraIndex → State c → Result (State c)
  handle_redeem_requests era_index s = handle_each era_index s.current_staking_round s
