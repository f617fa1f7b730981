-- ===== src/Spp/Unlocking.antt =====
-- pallets/spp/src/lib.rs: paying out the requests of a round keeps the books.
use versus_project_metaverse.Prelude.{
  ◌+◌, ◌-◌, ◌≡◌, ◌⊎◌, Option, none, some, ok, arith, nat_eq, pair_eq, ◌==◌, >>=-eq_ok, leb,
  Bool-cases, inl, inr, refl,
}
use versus_project_metaverse.Prelude.Maps.{get?, put}
use versus_project_metaverse.Primitives.{AccountId, Balance, EraIndex, FungibleTokenId, token_eq}
use versus_project_metaverse.Spp.Types
use versus_project_metaverse.Spp.Types.{
  Config, State, Result, QueueId, StakingRound, staking_round_eq, Requests, era,
}
use versus_project_metaverse.Spp.Unlock.{
  close_request, lower_request, lower_entry, receiver, pay_full, pay_part, paid_out,
  update_queue_request, handle_redeem_requests,
}
use versus_project_metaverse.Spp.Booking.{
  IsBooked, same-IsBooked, lowered-IsBooked, close_request-needs, lower_request-needs,
}
use versus_project_metaverse.Spp.Rounds.{handle_redeem_requests-Kept}

module _ (c : Config) where
  pay_full-IsBooked :
      (currency : FungibleTokenId) (account to : AccountId) (id : QueueId) (a : Balance)
      (r : StakingRound) (s s' : State c)
      → get? (currency, id) s.currency_redeem_queue ≡ some (account, (a, r))
      → pay_full c currency account to id a r s ≡ ok s'
      → IsBooked s
      → IsBooked s'
  unfolding pay_full put
  pay_full-IsBooked currency account to id a r s s' found e h =
      let rm = get? (r, currency) s.staking_round_redeem_queue in
      let um = get? (account, currency) s.user_currency_redeem_queue in
      let (l, moved, e1) = >>=-eq_ok (c.transfer currency c.pool_account to a s.ledger) _ e in
      let (v, round, e2) =
        >>=-eq_ok (close_request id a Types.staking_round_redeem_not_found rm) _ e1 in
      let (u, user, e3) =
        >>=-eq_ok (close_request id a Types.user_currency_redeem_queue_not_found um) _ e2 in
      lowered-IsBooked c currency account id a a r none v u s s' found (inl (refl, refl))
        (close_request-needs id a Types.staking_round_redeem_not_found rm v round)
        (close_request-needs id a Types.user_currency_redeem_queue_not_found um u user)
        (ground arith) (ground arith) (ground arith) (ground arith) h

  lower_entry-leaves :
      (account : AccountId) (n a : Balance) (r : StakingRound)
      (o : Option (AccountId × (Balance × StakingRound)))
      → lower_entry a (some (account, (n, r))) ≡ ok o
      → ((o ≡ none) × (n ≡ a)) ⊎ ((m : Balance) × (o ≡ some (account, (m, r))) × (n ≡ m + a))
  unfolding lower_entry
  lower_entry-leaves account n a r o e = elim (Bool-cases (n == a)) [
    | inl all ↦ inl (ground arith, ground arith)
    | inr some_left ↦ inr (n - a, ground arith, ground arith)
  ]

  pay_part-IsBooked :
      (currency : FungibleTokenId) (account to : AccountId) (id : QueueId) (n a : Balance)
      (r : StakingRound) (s s' : State c)
      → get? (currency, id) s.currency_redeem_queue ≡ some (account, (n, r))
      → pay_part c currency account to id a r s ≡ ok s'
      → IsBooked s
      → IsBooked s'
  unfolding pay_part
  pay_part-IsBooked currency account to id n a r s s' found e h =
      let rm = get? (r, currency) s.staking_round_redeem_queue in
      let um = get? (account, currency) s.user_currency_redeem_queue in
      let (l, moved, e1) = >>=-eq_ok (c.transfer currency c.pool_account to a s.ledger) _ e in
      let (o, entry, e2) =
        >>=-eq_ok (lower_entry a (get? (currency, id) s.currency_redeem_queue)) _ e1 in
      let (v, round, e3) =
        >>=-eq_ok (lower_request a Types.staking_round_redeem_not_found rm) _ e2 in
      let (u, user, e4) =
        >>=-eq_ok (lower_request a Types.user_currency_redeem_queue_not_found um) _ e3 in
      lowered-IsBooked c currency account id n a r o v u s s' found
        (lower_entry-leaves account n a r o (rw found at entry))
        (lower_request-needs a Types.staking_round_redeem_not_found rm v round)
        (lower_request-needs a Types.user_currency_redeem_queue_not_found um u user) (ground arith)
        (ground arith) (ground arith) (ground arith) h

  paid_out-IsBooked :
      (currency : FungibleTokenId) (to : AccountId) (id : QueueId) (a : Balance) (s s' : State c)
      → paid_out c currency to id a s ≡ ok s'
      → IsBooked s
      → IsBooked s'
  unfolding paid_out
  paid_out-IsBooked currency to id a s s' e =
      same-IsBooked s s' (ground arith) (ground arith) (ground arith) (ground arith)

  update_queue_request-IsBooked :
      (currency : FungibleTokenId) (account : AccountId) (id : QueueId) (n b : Balance)
      (r : StakingRound) (s s' : State c)
      → get? (currency, id) s.currency_redeem_queue ≡ some (account, (n, r))
      → update_queue_request c currency account id n b r s ≡ ok s'
      → IsBooked s
      → IsBooked s'
  unfolding update_queue_request
  update_queue_request-IsBooked currency account id n b r s s' found e h =
      let (to, chosen, e1) = >>=-eq_ok (receiver c currency account n s) _ e in
      elim (Bool-cases (leb n b)) [
        | inl enough ↦
            let (t, done, e2) =
              >>=-eq_ok (pay_full c currency account to id n r s) _ (rw enough at e1) in
            paid_out-IsBooked currency to id n t s' e2
              (pay_full-IsBooked currency account to id n r s t found done h)
        | inr short ↦
            let (t, done, e2) =
              >>=-eq_ok (pay_part c currency account to id b r s) _ (rw short at e1) in
            paid_out-IsBooked currency to id b t s' e2
              (pay_part-IsBooked currency account to id n b r s t found done h)
      ]

  -- Paying out the requests of an era, in full, in part or not at all, keeps the entries of users
  -- and of rounds equal to what the queue of the currency holds for them.
  pub handle_redeem_requests-IsBooked :
      (n : EraIndex) (s s' : State c)
      → handle_redeem_requests c n s ≡ ok s'
      → IsBooked s
      → IsBooked s'
  handle_redeem_requests-IsBooked n s s' e h =
      handle_redeem_requests-Kept c IsBooked update_queue_request-IsBooked
        (λ rounds s. same-IsBooked s (record s { last_staking_round = rounds }) refl refl refl refl)
        n s s' e h
