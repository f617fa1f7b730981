-- ===== src/Spp/Tests.antt =====
-- The theorems on pallets/spp at concrete states of a small runtime: accounts are origins and 0 is
-- none; the ledger counts the receipts and what the pool account, 90, holds; a rate is in percent.
use versus_project_metaverse.Prelude.{
  ℕ, ◌+◌, ◌-◌, ◌*◌, ◌/◌, ◌≤◌, ok, err, bad_origin, external, refl, ◌≡◌, [], ◌∷◌, ◌==◌, some, none,
  if◌then◌else◌, arith, nat_eq, pair_eq, value_or, leb, Option,
}
use versus_project_metaverse.Prelude.Maps.{get?, insert, remove, put}
use versus_project_metaverse.Prelude.Totals.{total}
use versus_project_metaverse.Primitives.{FungibleTokenId, native_token, fungible_token, token_eq}
use versus_project_metaverse.Spp.Types.{Config, State, StakingRound, era, staking_round_eq}
use versus_project_metaverse.Spp.Pools
use versus_project_metaverse.Spp.Redeem
use versus_project_metaverse.Spp.Unlock
use versus_project_metaverse.Spp.Booking.{IsBooked}
use versus_project_metaverse.Spp.Unlocking.{handle_redeem_requests-IsBooked}
use versus_project_metaverse.Spp.Filing.{Filed}
use versus_project_metaverse.Spp.Redeeming.{redeem-IsBooked}
use versus_project_metaverse.Spp.Backing.{
  IsBacked, deposit-IsBacked, redeem-IsBacked, handle_redeem_requests-IsBacked,
}
use versus_project_metaverse.Spp.Exchange.{redeem-receipts}

abbrev receipt_of : FungibleTokenId → Option FungibleTokenId
receipt_of (native_token n) = some (fungible_token n)
receipt_of _ = none

abbrev currency_of : FungibleTokenId → Option FungibleTokenId
currency_of (fungible_token n) = some (native_token n)
currency_of _ = none

abbrev runtime : Config
runtime = record {
  Origin = ℕ;
  ensure_signed = λ o. if o == 0 then err bad_origin else ok o;
  Ledger = ℕ × ℕ;
  free_balance = λ _ who l. if who == 90 then l.1 else 1000;
  total_balance = λ _ who l. if who == 90 then l.1 else 1000;
  minimum_balance = λ _. 1;
  total_issuance = λ _ l. l.0;
  transfer = λ _ from to a l. ok (l.0, if to == 90 then l.1 + a else l.1 - a);
  deposit = λ _ _ a l. ok (l.0 + a, l.1);
  withdraw = λ _ _ a l. if leb a (l.0) then ok (l.0 - a, l.1) else err (external 1);
  Rate = ℕ;
  saturating_mul_int = λ rate a. rate * a / 100;
  convert_to_rcurrency = receipt_of;
  convert_to_currency = currency_of;
  pool_account = 90;
  maximum_queue = 10;
}

-- A pool of native token 1 with 1000 in it, for which there are 500 receipts.
abbrev start : State runtime
start = record {
  next_pool_id = 2;
  deposit_rate = 1;
  redeem_rate = 0;
  pool = (1, record { creator = 4; commission = 1; currency_id = native_token 1; max = 0 }) ∷ [];
  pool_ledger = (1, 1000) ∷ [];
  network_ledger = (native_token 1, 1000) ∷ [];
  minimum_redeem = [];
  staking_round_redeem_queue = [];
  user_currency_redeem_queue = [];
  currency_redeem_queue = [];
  unlock_duration = (native_token 1, era 2) ∷ [];
  current_staking_round = (native_token 1, era 10) ∷ [];
  last_staking_round = [];
  queue_next_id = [];
  iteration_limit = 5;
  currency_network_fee = [];
  events = [];
  ledger = (500, 60);
}

abbrev funded : State runtime
funded = value_or start (Pools.deposit runtime 5 1 100 start)

abbrev waiting : State runtime
waiting = value_or start (Redeem.redeem runtime 5 1 (fungible_token 1) 40 start)

abbrev part_paid : State runtime
part_paid = value_or waiting (Unlock.handle_redeem_requests runtime 12 waiting)

-- 80 is to be unlocked, of which the pool account has 60.
part_paid_queue :
    (get? (native_token 1, 0) part_paid.currency_redeem_queue ≡ some (5, (20, era 12)))
    × (get? (native_token 1) part_paid.network_ledger ≡ some 940)
unfolding Redeem.redeem Redeem.charged Redeem.burn_and_enqueue Redeem.enqueue Redeem.add_request
    Redeem.try_push Redeem.calculate_next_staking_round Redeem.sum_u32 Pools.collect_fee
    Pools.exchange Unlock.handle_redeem_requests Unlock.handle_each
    Unlock.handle_update_staking_round Unlock.process_each Unlock.process_entry
    Unlock.update_queue_request Unlock.receiver Unlock.pay_part Unlock.paid_out Unlock.lower_entry
    Unlock.lower_request get? insert remove put
part_paid_queue = (refl, refl)

start-IsBooked : IsBooked start
unfolding get? total
start-IsBooked = record {
  users = λ _ _. refl;
  rounds = λ _ _. refl;
  fresh = λ _ _. ground arith;
  users_distinct = tt;
  rounds_distinct = tt;
  queue_distinct = tt;
}

start-IsBacked : IsBacked start
unfolding get? total
start-IsBacked currency = ground arith

abbrev two_pools : State runtime
two_pools = value_or start (Pools.create_pool runtime 5 (native_token 1) 0 1 start)

deposit-IsBacked_example : IsBacked funded
unfolding Pools.deposit Pools.collect_fee Pools.receipts Pools.exchange get? insert
deposit-IsBacked_example = deposit-IsBacked runtime 5 1 100 start funded refl start-IsBacked

redeem-IsBooked_example :
    IsBooked waiting
    × ((amount : ℕ) × ((r : StakingRound) × Filed runtime 5
            (native_token 1)
            amount
            r
            start
            waiting))
unfolding Redeem.redeem Redeem.charged Redeem.burn_and_enqueue Redeem.enqueue Redeem.add_request
    Redeem.try_push Redeem.calculate_next_staking_round Redeem.sum_u32 Pools.collect_fee
    Pools.exchange get? insert
redeem-IsBooked_example =
    redeem-IsBooked runtime 5 5 1 (fungible_token 1) (native_token 1) 40 start waiting refl refl
      refl start-IsBooked

waiting-IsBooked : IsBooked waiting
unfolding Redeem.redeem Redeem.charged Redeem.burn_and_enqueue Redeem.enqueue Redeem.add_request
    Redeem.try_push Redeem.calculate_next_staking_round Redeem.sum_u32 Pools.collect_fee
    Pools.exchange get? insert
waiting-IsBooked =
    (redeem-IsBooked runtime 5 5 1 (fungible_token 1) (native_token 1) 40 start waiting refl refl
      refl start-IsBooked).0

redeem-IsBacked_example : IsBacked waiting
unfolding Redeem.redeem Redeem.charged Redeem.burn_and_enqueue Redeem.enqueue Redeem.add_request
    Redeem.try_push Redeem.calculate_next_staking_round Redeem.sum_u32 Pools.collect_fee
    Pools.exchange get? insert
redeem-IsBacked_example =
    redeem-IsBacked runtime 5 1 (fungible_token 1) 40 start waiting refl start-IsBooked
      start-IsBacked

handle_redeem_requests-IsBooked_example : IsBooked part_paid
unfolding Redeem.redeem Redeem.charged Redeem.burn_and_enqueue Redeem.enqueue Redeem.add_request
    Redeem.try_push Redeem.calculate_next_staking_round Redeem.sum_u32 Pools.collect_fee
    Pools.exchange Unlock.handle_redeem_requests Unlock.handle_each
    Unlock.handle_update_staking_round Unlock.process_each Unlock.process_entry
    Unlock.update_queue_request Unlock.receiver Unlock.pay_part Unlock.paid_out Unlock.lower_entry
    Unlock.lower_request get? insert remove put
handle_redeem_requests-IsBooked_example =
    handle_redeem_requests-IsBooked runtime 12 waiting part_paid refl waiting-IsBooked

handle_redeem_requests-IsBacked_example : IsBacked part_paid
unfolding Redeem.redeem Redeem.charged Redeem.burn_and_enqueue Redeem.enqueue Redeem.add_request
    Redeem.try_push Redeem.calculate_next_staking_round Redeem.sum_u32 Pools.collect_fee
    Pools.exchange Unlock.handle_redeem_requests Unlock.handle_each
    Unlock.handle_update_staking_round Unlock.process_each Unlock.process_entry
    Unlock.update_queue_request Unlock.receiver Unlock.pay_part Unlock.paid_out Unlock.lower_entry
    Unlock.lower_request get? insert remove put
handle_redeem_requests-IsBacked_example =
    handle_redeem_requests-IsBacked runtime 12 waiting part_paid refl redeem-IsBacked_example

redeem-receipts_example : 98 ≤ 99
unfolding Pools.receipts Pools.exchange
redeem-receipts_example =
    redeem-receipts 99 500 1000 49 98 (omega arith) (omega arith) (omega arith) refl refl
