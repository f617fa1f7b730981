-- ===== src/Spp/Backing.antt =====
-- pallets/spp/src/lib.rs: the network ledger of a currency against the ledgers of its pools and the
-- requests that wait in its queue.
use versus_project_metaverse.Prelude.{
  ℕ, ◌+◌, ◌-◌, ◌≡◌, Option, none, some, ok, arith, ◌==◌, if◌then◌else◌, nat_eq, pair_eq, >>=-eq_ok,
  leb, Bool-cases, Option-cases, Outcome-cases, inl, inr, refl, sym, subst, ok_or, module_error,
  checked_sub, false, Bool,
}
use versus_project_metaverse.Prelude.Maps.{get?, get_or, insert, put, get?-insert}
use versus_project_metaverse.Prelude.Totals.{total, total-insert, total-remove, total-ext_ne}
use versus_project_metaverse.Primitives.{
  AccountId, Balance, EraIndex, FungibleTokenId, token_beq, token_beq_iff, token_eq,
}
use versus_project_metaverse.Spp.Types
use versus_project_metaverse.Spp.Types.{
  Config, State, QueueId, PoolId, PoolInfo, StakingRound, staking_round_eq, Requests,
}
use versus_project_metaverse.Spp.Pools
use versus_project_metaverse.Spp.Redeem
use versus_project_metaverse.Spp.Unlock
use versus_project_metaverse.Spp.Booking.{IsBooked, fresh-get?}
use versus_project_metaverse.Spp.Redeeming.{redeem-Parts}
use versus_project_metaverse.Spp.Rounds.{handle_redeem_requests-Kept}

abbrev pub is_of : {c : Config} → FungibleTokenId → Option (PoolInfo c) → Bool
is_of currency none = false
is_of currency (some pool) = token_beq pool.currency_id currency

-- What a pool's ledger counts for a currency.
abbrev pub of_pool : {c : Config} → State c → FungibleTokenId → PoolId → Balance → ℕ
of_pool s currency id amount = if is_of currency (get? id s.pool) then amount else 0

-- What a request counts for a currency.
abbrev pub of_currency :
    FungibleTokenId → FungibleTokenId × QueueId → AccountId × (Balance × StakingRound) → ℕ
of_currency currency (k, _) (_, (amount, _)) = if token_beq k currency then amount else 0

-- The network ledger of a currency is the sum of its pools' ledgers and of its waiting requests.
abbrev pub IsBacked : {c : Config} → State c → Type 0
IsBacked s =
    (currency : FungibleTokenId)
    → get_or 0 currency s.network_ledger
      ≡ total (of_pool s currency) s.pool_ledger
        + total (of_currency currency) s.currency_redeem_queue

module _ (c : Config) where
  -- A successful `create_pool`, whose new id has no ledger yet, keeps the network ledger of each
  -- currency equal to the sum of its pools' ledgers and of its waiting requests.
  pub create_pool-IsBacked :
      (o : c.Origin) (currency : FungibleTokenId) (max : ℕ) (commission : c.Rate) (s s' : State c)
      → get? (if s.next_pool_id == 0 then 1 else s.next_pool_id) s.pool_ledger ≡ none
      → Pools.create_pool c o currency max commission s ≡ ok s'
      → IsBacked s
      → IsBacked s'
  unfolding Pools.create_pool
  create_pool-IsBacked o currency max commission s s' missing e h k =
      let (who, signed, _) = >>=-eq_ok (c.ensure_signed o) _ e in
      let id = if s.next_pool_id == 0 then 1 else s.next_pool_id in
      let p : PoolInfo c = record {
        creator = who;
        commission = commission;
        currency_id = currency;
        max = max;
      } in
      let added : s'.pool ≡ insert id p s.pool = ground (arith, signed) in
      let same =
        total-ext_ne (of_pool s k) (of_pool s' k) id
          (λ j v other. ground (arith, other, added, get?-insert j id p s.pool)) s.pool_ledger
          missing in
      ground (arith, signed, same, h k)

  -- A successful deposit keeps the network ledger of each currency equal to the sum of its pools'
  -- ledgers and of its waiting requests.
  pub deposit-IsBacked :
      (o : c.Origin) (pool_id : PoolId) (a : Balance) (s s' : State c)
      → Pools.deposit c o pool_id a s ≡ ok s'
      → IsBacked s
      → IsBacked s'
  unfolding Pools.deposit
  deposit-IsBacked o pool_id a s s' e h k =
      let (who, signed, _) = >>=-eq_ok (c.ensure_signed o) _ e in
      elim (Option-cases (get? pool_id s.pool)) [
        | inl missing ↦ absurd (ground (arith, missing))
        | inr (pool, found) ↦
            elim (Outcome-cases
              (Pools.collect_fee c s.deposit_rate who pool.currency_id a s.ledger)) [
                | inl ((b, l), charged) ↦ ground (
                  arith,
                  found,
                  charged,
                  h k,
                  total-insert (of_pool s k) pool_id (get_or 0 pool_id s.pool_ledger + b)
                      s.pool_ledger,
                  get?-insert k pool.currency_id (get_or 0 pool.currency_id s.network_ledger + b)
                      s.network_ledger,
                  token_beq_iff pool.currency_id k,
                )
                | inr failed ↦ absurd (ground (arith, found, failed))
              ]
      ]

  -- A payment takes the same amount from the queue and from the network ledger.
  pay_full-taken :
      (currency k : FungibleTokenId) (account to : AccountId) (id : QueueId) (a : Balance)
      (r : StakingRound) (s t : State c)
      → get? (currency, id) s.currency_redeem_queue ≡ some (account, (a, r))
      → Unlock.pay_full c currency account to id a r s ≡ ok t
      → (total (of_currency k) t.currency_redeem_queue + (if token_beq currency k then a else 0)
          ≡ total (of_currency k) s.currency_redeem_queue)
        × (t.pool ≡ s.pool)
        × (t.pool_ledger ≡ s.pool_ledger)
        × (t.network_ledger ≡ s.network_ledger)
  unfolding Unlock.pay_full
  pay_full-taken currency k account to id a r s t found e =
      ground (arith, found, total-remove (of_currency k) (currency, id) s.currency_redeem_queue)

  pay_part-taken :
      (currency k : FungibleTokenId) (account to : AccountId) (id : QueueId) (n a : Balance)
      (r : StakingRound) (s t : State c)
      → get? (currency, id) s.currency_redeem_queue ≡ some (account, (n, r))
      → Unlock.pay_part c currency account to id a r s ≡ ok t
      → (total (of_currency k) t.currency_redeem_queue + (if token_beq currency k then a else 0)
          ≡ total (of_currency k) s.currency_redeem_queue)
        × (t.pool ≡ s.pool)
        × (t.pool_ledger ≡ s.pool_ledger)
        × (t.network_ledger ≡ s.network_ledger)
  unfolding Unlock.pay_part Unlock.lower_entry put
  pay_part-taken currency k account to id n a r s t found e = ground (
    arith,
    found,
    total-remove (of_currency k) (currency, id) s.currency_redeem_queue,
    total-insert (of_currency k) (currency, id) (account, (n - a, r)) s.currency_redeem_queue,
  )

  paid_out-IsBacked :
      (currency : FungibleTokenId) (account : AccountId) (id : QueueId) (a : Balance)
      (s t s' : State c)
      → ((k : FungibleTokenId)
          → (total (of_currency k) t.currency_redeem_queue + (if token_beq currency k then a else 0)
              ≡ total (of_currency k) s.currency_redeem_queue)
            × (t.pool ≡ s.pool)
            × (t.pool_ledger ≡ s.pool_ledger)
            × (t.network_ledger ≡ s.network_ledger))
      → Unlock.paid_out c currency account id a t ≡ ok s'
      → IsBacked s
      → IsBacked s'
  unfolding Unlock.paid_out
  paid_out-IsBacked currency account id a s t s' taken e h k = ground (
    arith,
    taken k,
    taken currency,
    h k,
    get?-insert k currency (get_or 0 currency t.network_ledger - a) t.network_ledger,
    token_beq_iff currency k,
  )

  update_queue_request-IsBacked :
      (currency : FungibleTokenId) (account : AccountId) (id : QueueId) (n b : Balance)
      (r : StakingRound) (s s' : State c)
      → get? (currency, id) s.currency_redeem_queue ≡ some (account, (n, r))
      → Unlock.update_queue_request c currency account id n b r s ≡ ok s'
      → IsBacked s
      → IsBacked s'
  unfolding Unlock.update_queue_request
  update_queue_request-IsBacked currency account id n b r s s' found e h =
      let (to, chosen, e1) = >>=-eq_ok (Unlock.receiver c currency account n s) _ e in
      elim (Bool-cases (leb n b)) [
        | inl enough ↦
            let (t, done, e2) =
              >>=-eq_ok (Unlock.pay_full c currency account to id n r s) _ (rw enough at e1) in
            paid_out-IsBacked currency to id n s t s'
              (λ k. pay_full-taken currency k account to id n r s t found done) e2 h
        | inr short ↦
            let (t, done, e2) =
              >>=-eq_ok (Unlock.pay_part c currency account to id b r s) _ (rw short at e1) in
            paid_out-IsBacked currency to id b s t s'
              (λ k. pay_part-taken currency k account to id n b r s t found done) e2 h
      ]

  -- Paying out the requests of an era, in full, in part or not at all, keeps the network ledger of
  -- each currency equal to the sum of its pools' ledgers and of its waiting requests.
  pub handle_redeem_requests-IsBacked :
      (n : EraIndex) (s s' : State c)
      → Unlock.handle_redeem_requests c n s ≡ ok s'
      → IsBacked s
      → IsBacked s'
  handle_redeem_requests-IsBacked n s s' e h =
      handle_redeem_requests-Kept c IsBacked update_queue_request-IsBacked (λ rounds s h. h) n s s'
        e h

  enqueue-added :
      (who : AccountId) (currency k : FungibleTokenId) (a : Balance) (r : StakingRound)
      (s s' : State c)
      → get? (currency, get_or 0 currency s.queue_next_id) s.currency_redeem_queue ≡ none
      → Redeem.enqueue c who currency a r s ≡ ok s'
      → (total (of_currency k) s'.currency_redeem_queue
          ≡ total (of_currency k) s.currency_redeem_queue + (if token_beq currency k then a else 0))
        × (s'.pool ≡ s.pool)
        × (s'.pool_ledger ≡ s.pool_ledger)
        × (s'.network_ledger ≡ s.network_ledger)
  unfolding Redeem.enqueue
  enqueue-added who currency k a r s s' new e = ground (
    arith,
    new,
    total-insert (of_currency k) (currency, get_or 0 currency s.queue_next_id) (who, (a, r))
        s.currency_redeem_queue,
  )

  burn_and_enqueue-IsBacked :
      (who : AccountId) (pool_id : PoolId) (v j : FungibleTokenId) (a b : Balance) (p : PoolInfo c)
      (s s' : State c)
      → get? pool_id s.pool ≡ some p
      → j ≡ p.currency_id
      → get? (j, get_or 0 j s.queue_next_id) s.currency_redeem_queue ≡ none
      → Redeem.burn_and_enqueue c who pool_id v j a b s ≡ ok s'
      → IsBacked s
      → IsBacked s'
  unfolding Redeem.burn_and_enqueue
  burn_and_enqueue-IsBacked who pool_id v j a b p s s' found same new e h k =
      let (now, at, e1) =
        >>=-eq_ok
          (ok_or (get? j s.current_staking_round) (module_error Types.no_current_staking_round)) _
          e in
      let (wait, for, e2) =
        >>=-eq_ok (ok_or (get? j s.unlock_duration) (module_error Types.unlock_duration_not_found))
          _ e1 in
      let (r, until, e3) = >>=-eq_ok (Redeem.calculate_next_staking_round wait now) _ e2 in
      let (l, burnt, e4) = >>=-eq_ok (c.withdraw v who a s.ledger) _ e3 in
      let old = get_or 0 pool_id s.pool_ledger in
      let (n, less, e5) =
        >>=-eq_ok (ok_or (checked_sub old b) (module_error Types.arithmetic_overflow)) _ e4 in
      let t = record s { ledger = l; pool_ledger = insert pool_id n s.pool_ledger } in
      ground (
        arith,
        found,
        h k,
        enqueue-added who j k b r t s' new e5,
        total-insert (of_pool s k) pool_id n s.pool_ledger,
      )

  -- A successful `redeem` from a state with its books in order keeps the network ledger of each
  -- currency equal to the sum of its pools' ledgers and of its waiting requests.
  pub redeem-IsBacked :
      (o : c.Origin) (pool_id : PoolId) (v : FungibleTokenId) (a : Balance) (s s' : State c)
      → Redeem.redeem c o pool_id v a s ≡ ok s'
      → IsBooked s
      → IsBacked s
      → IsBacked s'
  redeem-IsBacked o pool_id v a s s' e booked h =
      let p = redeem-Parts c o pool_id v a s s' e in
      let k = p.pool.currency_id in
      let moved =
        burn_and_enqueue-IsBacked p.who pool_id v k p.receipts p.amount p.pool
          (record s { ledger = p.ledger }) p.between p.found refl (fresh-get? s k booked) p.burnt
          h in
      subst IsBacked (sym p.reported) moved
