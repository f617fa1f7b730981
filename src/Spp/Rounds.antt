-- ===== src/Spp/Rounds.antt =====
-- pallets/spp/src/lib.rs: what one payment keeps, paying out the requests of an era keeps.
use versus_project_metaverse.Prelude.{
  ◌+◌, ◌%◌, ◌^◌, ◌≡◌, Option, none, some, List, [], ◌∷◌, ok, arith, nat_eq, pair_eq, subst,
  ok-injective, >>=-eq_ok, Option-cases, Outcome-cases, inl, inr, refl,
}
use versus_project_metaverse.Prelude.Maps.{Map, get?, get_or, insert}
use versus_project_metaverse.Primitives.{AccountId, Balance, EraIndex, FungibleTokenId, token_eq}
use versus_project_metaverse.Spp.Types.{Config, State, QueueId, StakingRound, staking_round_eq, era}
use versus_project_metaverse.Spp.Unlock.{
  update_queue_request, process_entry, process_each, handle_update_staking_round, handle_each,
  handle_redeem_requests, take, advance, next_staking_round, duration_of,
}

-- A property of the state that one payment keeps, and that says nothing of the last rounds.
module _ (c : Config) (P : State c → Type 0)
    (pays : (currency : FungibleTokenId) (account : AccountId) (id : QueueId) (n b : Balance)
        (r : StakingRound) (s s' : State c)
      → get? (currency, id) s.currency_redeem_queue ≡ some (account, (n, r))
      → update_queue_request c currency account id n b r s ≡ ok s'
      → P s
      → P s')
    (moves : (rounds : Map FungibleTokenId StakingRound) (s : State c)
      → P s
      → P (record s { last_staking_round = rounds })) where
  process_entry-Kept :
      (currency : FungibleTokenId) (id : QueueId)
      (o : Option (AccountId × (Balance × StakingRound))) (s s' : State c)
      → get? (currency, id) s.currency_redeem_queue ≡ o
      → process_entry c currency id o s ≡ ok s'
      → P s
      → P s'
  unfolding process_entry
  process_entry-Kept currency id none s s' found e h = ground arith
  process_entry-Kept currency id (some (account, (n, r))) s s' found e h =
      let b = c.free_balance currency c.pool_account s.ledger in
      elim (Outcome-cases (update_queue_request c currency account id n b r s)) [
        | inl (t, done) ↦
            let kept = pays currency account id n b r s t found done h in ground (arith, done, kept)
        | inr failed ↦ ground (arith, failed)
      ]

  process_each-Kept :
      (currency : FungibleTokenId) (ids : List QueueId) (s s' : State c)
      → process_each c currency ids s ≡ ok s'
      → P s
      → P s'
  unfolding process_each
  process_each-Kept currency [] s s' e h = ground arith
  process_each-Kept currency (id ∷ ids) s s' e h =
      let o = get? (currency, id) s.currency_redeem_queue in
      let (t, one, e') = >>=-eq_ok (process_entry c currency id o s) _ e in
      process_each-Kept currency ids t s' e' (process_entry-Kept currency id o s t refl one h)

  advance-Kept :
      (n : EraIndex) (currency : FungibleTokenId) (s s' : State c)
      → advance c n currency s ≡ ok s'
      → P s
      → P s'
  unfolding advance
  advance-Kept n currency s s' e h =
      let bound = (n + duration_of (get? currency s.unlock_duration)) % 2 ^ 32 in
      let last = get_or (era 0) currency s.last_staking_round in
      let (r, next, e') = >>=-eq_ok (next_staking_round bound last) _ e in
      subst P (ok-injective e') (moves (insert currency r s.last_staking_round) s h)

  handle_update_staking_round-Kept :
      (n : EraIndex) (currency : FungibleTokenId) (s s' : State c)
      → handle_update_staking_round c n currency s ≡ ok s'
      → P s
      → P s'
  unfolding handle_update_staking_round
  handle_update_staking_round-Kept n currency s s' e h =
      elim (Option-cases (get? (era n, currency) s.staking_round_redeem_queue)) [
        | inl idle ↦ advance-Kept n currency s s' (ground (arith, idle)) h
        | inr ((m, (ids, k)), found) ↦
            process_each-Kept k (take s.iteration_limit ids) s s' (ground (arith, found)) h
      ]

  handle_each-Kept :
      (n : EraIndex) (rounds : Map FungibleTokenId StakingRound) (s s' : State c)
      → handle_each c n rounds s ≡ ok s'
      → P s
      → P s'
  unfolding handle_each
  handle_each-Kept n [] s s' e h = ground arith
  handle_each-Kept n ((currency, r) ∷ rounds) s s' e h =
      let (t, one, e') = >>=-eq_ok (handle_update_staking_round c n currency s) _ e in
      handle_each-Kept n rounds t s' e' (handle_update_staking_round-Kept n currency s t one h)

  pub handle_redeem_requests-Kept :
      (n : EraIndex) (s s' : State c) → handle_redeem_requests c n s ≡ ok s' → P s → P s'
  unfolding handle_redeem_requests
  handle_redeem_requests-Kept n s s' e h = handle_each-Kept n s.current_staking_round s s' e h
