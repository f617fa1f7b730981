-- ===== src/Spp/Booking.antt =====
-- pallets/spp/src/lib.rs: the queue of a currency against what the entries of users and rounds say.
use versus_project_metaverse.Prelude.{
  ℕ, ◌+◌, ◌≡◌, ◌⊎◌, false, Option, none, some, ok, arith, ◌&&◌, ◌==◌, if◌then◌else◌, nat_eq,
  pair_eq, ==_iff, >>=-eq_ok, leb, Option-cases, inl, inr,
}
use versus_project_metaverse.Prelude.Maps.{
  get?, get_or, contains_key, put, Distinct, get?-insert, get?-put, insert-Distinct, put-Distinct,
}
use versus_project_metaverse.Prelude.Totals.{total, total-insert, total-put}
use versus_project_metaverse.Primitives.{
  AccountId, Balance, FungibleTokenId, token_beq, token_beq_iff, token_eq,
}
use versus_project_metaverse.Spp.Types
use versus_project_metaverse.Spp.Types.{
  Config, State, QueueId, StakingRound, staking_round_beq, staking_round_beq_iff, staking_round_eq,
  Requests,
}
use versus_project_metaverse.Spp.Redeem.{add_request, enqueue, sum_u32}
use versus_project_metaverse.Spp.Unlock.{close_request, lower_request}

-- What a request counts for a user, or for a round, in a currency.
abbrev pub of_user :
    AccountId
    → FungibleTokenId
    → FungibleTokenId × QueueId
    → AccountId × (Balance × StakingRound)
    → ℕ
of_user who currency (k, _) (account, (amount, _)) =
    if token_beq k currency && account == who then amount else 0

abbrev pub of_round :
    StakingRound
    → FungibleTokenId
    → FungibleTokenId × QueueId
    → AccountId × (Balance × StakingRound)
    → ℕ
of_round r currency (k, _) (_, (amount, staking_round)) =
    if token_beq k currency && staking_round_beq staking_round r then amount else 0

-- What an entry says is to be unlocked.
abbrev pub needs : {T : Type 0} → Option (Requests T) → ℕ
needs none = 0
needs (some (amount, _)) = amount

-- The entries of users and of rounds add up what the queue holds for them, and no id at or past the
-- next one is in the queue.
pub record IsBooked {c : Config} (s : State c) : Type 0 where
  pub users :
      (who : AccountId) (currency : FungibleTokenId)
      → needs (get? (who, currency) s.user_currency_redeem_queue)
        ≡ total (of_user who currency) s.currency_redeem_queue
  pub rounds :
      (r : StakingRound) (currency : FungibleTokenId)
      → needs (get? (r, currency) s.staking_round_redeem_queue)
        ≡ total (of_round r currency) s.currency_redeem_queue
  pub fresh :
      (currency : FungibleTokenId) (id : QueueId)
      → (leb (get_or 0 currency s.queue_next_id) id
          && contains_key (currency, id) s.currency_redeem_queue)
        ≡ false
  pub users_distinct : Distinct s.user_currency_redeem_queue
  pub rounds_distinct : Distinct s.staking_round_redeem_queue
  pub queue_distinct : Distinct s.currency_redeem_queue

pub same-IsBooked :
    {c : Config} (s s' : State c)
    → s'.user_currency_redeem_queue ≡ s.user_currency_redeem_queue
    → s'.staking_round_redeem_queue ≡ s.staking_round_redeem_queue
    → s'.currency_redeem_queue ≡ s.currency_redeem_queue
    → s'.queue_next_id ≡ s.queue_next_id
    → IsBooked s
    → IsBooked s'
same-IsBooked s s' a b d e h = record {
  users = λ who currency. rw (a, d) (h.users who currency);
  rounds = λ r currency. rw (b, d) (h.rounds r currency);
  fresh = λ currency id. rw (d, e) (h.fresh currency id);
  users_distinct = rw a h.users_distinct;
  rounds_distinct = rw b h.rounds_distinct;
  queue_distinct = rw d h.queue_distinct;
}

pub fresh-get? :
    {c : Config} (s : State c) (currency : FungibleTokenId)
    → IsBooked s
    → get? (currency, get_or 0 currency s.queue_next_id) s.currency_redeem_queue ≡ none
fresh-get? s currency h =
    let id = get_or 0 currency s.queue_next_id in
    elim (Option-cases (get? (currency, id) s.currency_redeem_queue)) [
      | inl new ↦ new
      | inr (v, old) ↦ absurd (ground (arith, h.fresh currency id, old))
    ]

add_request-needs :
    {T : Type 0} (bound : ℕ) (id : QueueId) (a : Balance) (tag : T) (o : Option (Requests T))
    (r : Requests T)
    → add_request bound id a tag o ≡ ok r
    → needs (some r) ≡ needs o + a
unfolding add_request
add_request-needs bound id a tag none r e = ground arith
add_request-needs bound id a tag (some (n, (ids, t))) r e = ground arith

pub close_request-needs :
    {T : Type 0} (id : QueueId) (a : Balance) (m : Types.Error) (o o' : Option (Requests T))
    → close_request id a m o ≡ ok o'
    → needs o ≡ needs o' + a
unfolding close_request
close_request-needs id a m none o' e = absurd (ground arith)
close_request-needs id a m (some (n, (ids, t))) o' e = ground arith

pub lower_request-needs :
    {T : Type 0} (a : Balance) (m : Types.Error) (o o' : Option (Requests T))
    → lower_request a m o ≡ ok o'
    → needs o ≡ needs o' + a
unfolding lower_request
lower_request-needs a m none o' e = absurd (ground arith)
lower_request-needs a m (some (n, (ids, t))) o' e = ground arith

module _ (c : Config) where
  pub enqueue-IsBooked :
      (who : AccountId) (currency : FungibleTokenId) (a : Balance) (r : StakingRound)
      (s s' : State c)
      → enqueue c who currency a r s ≡ ok s'
      → IsBooked s
      → IsBooked s'
  unfolding enqueue sum_u32
  enqueue-IsBooked who currency a r s s' e h =
      let id = get_or 0 currency s.queue_next_id in
      let um = s.user_currency_redeem_queue in
      let rm = s.staking_round_redeem_queue in
      let (u, user, e1) =
        >>=-eq_ok (add_request c.maximum_queue id a tt (get? (who, currency) um)) _ e in
      let (v, round, e2) =
        >>=-eq_ok (add_request c.maximum_queue id a currency (get? (r, currency) rm)) _ e1 in
      let new = fresh-get? s currency h in
      record {
        users = λ x k. ground (
          arith,
          new,
          h.users x k,
          get?-insert (x, k) (who, currency) u um,
          total-insert (of_user x k) (currency, id) (who, (a, r)) s.currency_redeem_queue,
          add_request-needs c.maximum_queue id a tt (get? (who, currency) um) u user,
          token_beq_iff currency k,
          ==_iff who x,
        );
        rounds = λ x k. ground (
          arith,
          new,
          h.rounds x k,
          get?-insert (x, k) (r, currency) v rm,
          total-insert (of_round x k) (currency, id) (who, (a, r)) s.currency_redeem_queue,
          add_request-needs c.maximum_queue id a currency (get? (r, currency) rm) v round,
          token_beq_iff currency k,
          staking_round_beq_iff r x,
        );
        fresh = λ k i. ground (
          arith,
          h.fresh k i,
          get?-insert k currency (id + 1) s.queue_next_id,
          get?-insert (k, i) (currency, id) (who, (a, r)) s.currency_redeem_queue,
          token_beq_iff currency k,
        );
        users_distinct =
            ground (arith, h.users_distinct, insert-Distinct (who, currency) u um h.users_distinct);
        rounds_distinct =
            ground (arith, h.rounds_distinct, insert-Distinct (r, currency) v rm h.rounds_distinct);
        queue_distinct = ground (
          arith,
          insert-Distinct (currency, id) (who, (a, r)) s.currency_redeem_queue h.queue_distinct,
        );
      }

  -- A payment that takes `a` from the request, and from what its user and its round have.
  pub lowered-IsBooked :
      (currency : FungibleTokenId) (account : AccountId) (id : QueueId) (n a : Balance)
      (r : StakingRound) (o : Option (AccountId × (Balance × StakingRound)))
      (v : Option (Requests FungibleTokenId)) (u : Option (Requests (Unit {0}))) (s s' : State c)
      → get? (currency, id) s.currency_redeem_queue ≡ some (account, (n, r))
      → ((o ≡ none) × (n ≡ a)) ⊎ ((m : Balance) × (o ≡ some (account, (m, r))) × (n ≡ m + a))
      → needs (get? (r, currency) s.staking_round_redeem_queue) ≡ needs v + a
      → needs (get? (account, currency) s.user_currency_redeem_queue) ≡ needs u + a
      → s'.currency_redeem_queue ≡ put (currency, id) o s.currency_redeem_queue
      → s'.staking_round_redeem_queue ≡ put (r, currency) v s.staking_round_redeem_queue
      → s'.user_currency_redeem_queue ≡ put (account, currency) u s.user_currency_redeem_queue
      → s'.queue_next_id ≡ s.queue_next_id
      → IsBooked s
      → IsBooked s'
  lowered-IsBooked currency account id n a r o v u s s' found leaves rest_v rest_u eo ev eu en h =
      record {
        users = λ x k. ground (
          arith,
          found,
          h.users x k,
          eu,
          eo,
          get?-put (x, k) (account, currency) u s.user_currency_redeem_queue h.users_distinct,
          total-put (of_user x k) (currency, id) o s.currency_redeem_queue,
          token_beq_iff currency k,
          ==_iff account x,
        );
        rounds = λ x k. ground (
          arith,
          found,
          h.rounds x k,
          ev,
          eo,
          get?-put (x, k) (r, currency) v s.staking_round_redeem_queue h.rounds_distinct,
          total-put (of_round x k) (currency, id) o s.currency_redeem_queue,
          token_beq_iff currency k,
          staking_round_beq_iff r x,
        );
        fresh = λ k i. ground (
          arith,
          h.fresh k i,
          en,
          eo,
          found,
          get?-put (k, i) (currency, id) o s.currency_redeem_queue h.queue_distinct,
          token_beq_iff currency k,
        );
        users_distinct =
            rw eu
              (put-Distinct (account, currency) u s.user_currency_redeem_queue h.users_distinct);
        rounds_distinct =
            rw ev (put-Distinct (r, currency) v s.staking_round_redeem_queue h.rounds_distinct);
        queue_distinct =
            rw eo (put-Distinct (currency, id) o s.currency_redeem_queue h.queue_distinct);
      }
