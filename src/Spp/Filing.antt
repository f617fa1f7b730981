-- ===== src/Spp/Filing.antt =====
-- pallets/spp/src/lib.rs: the request that `redeem` files in the three queues.
use versus_project_metaverse.Prelude.{
  ℕ, ◌+◌, ◌≡◌, Option, none, some, List, [], ◌∷◌, ◌++◌, ok, arith, nat_eq, pair_eq, ok_or,
  module_error, checked_sub, >>=-eq_ok,
}
use versus_project_metaverse.Prelude.Maps.{get?, get_or, insert, get?-insert_self}
use versus_project_metaverse.Primitives.{AccountId, Balance, FungibleTokenId, token_eq}
use versus_project_metaverse.Spp.Types
use versus_project_metaverse.Spp.Types.{
  Config, State, QueueId, StakingRound, Requests, staking_round_eq,
}
use versus_project_metaverse.Spp.Redeem

-- The ids of the requests of a user, or of a round.
abbrev pub ids_of : {T : Type 0} → Option (Requests T) → List QueueId
ids_of none = []
ids_of (some (_, (ids, _))) = ids

add_request-ids :
    {T : Type 0} (bound : ℕ) (id : QueueId) (a : Balance) (tag : T) (o : Option (Requests T))
    (r : Requests T)
    → Redeem.add_request bound id a tag o ≡ ok r
    → ids_of (some r) ≡ ids_of o ++ (id ∷ [])
unfolding Redeem.add_request Redeem.try_push
add_request-ids bound id a tag none r e = ground arith
add_request-ids bound id a tag (some (n, (ids, t))) r e = ground arith

module _ (c : Config) where
  -- A request for the amount has joined the queue of the currency under its next id, and the id has
  -- joined the ids of the user's requests and of the round's, behind those that were there.
  pub record Filed (who : AccountId) (k : FungibleTokenId) (amount : Balance) (r : StakingRound)
      (s s' : State c) : Type 0 where
    pub queued :
        get? (k, get_or 0 k s.queue_next_id) s'.currency_redeem_queue ≡ some (who, (amount, r))
    pub of_user :
        ids_of (get? (who, k) s'.user_currency_redeem_queue)
        ≡ ids_of (get? (who, k) s.user_currency_redeem_queue) ++ (get_or 0 k s.queue_next_id ∷ [])
    pub of_round :
        ids_of (get? (r, k) s'.staking_round_redeem_queue)
        ≡ ids_of (get? (r, k) s.staking_round_redeem_queue) ++ (get_or 0 k s.queue_next_id ∷ [])
    pub next : get_or 0 k s'.queue_next_id ≡ get_or 0 k s.queue_next_id + 1

  enqueue-Filed :
      (who : AccountId) (k : FungibleTokenId) (a : Balance) (r : StakingRound) (s s' : State c)
      → Redeem.enqueue c who k a r s ≡ ok s'
      → Filed who k a r s s'
  unfolding Redeem.enqueue Redeem.sum_u32
  enqueue-Filed who k a r s s' e =
      let id = get_or 0 k s.queue_next_id in
      let um = s.user_currency_redeem_queue in
      let rm = s.staking_round_redeem_queue in
      let (u, user, e1) =
        >>=-eq_ok (Redeem.add_request c.maximum_queue id a tt (get? (who, k) um)) _ e in
      let (v, round, e2) =
        >>=-eq_ok (Redeem.add_request c.maximum_queue id a k (get? (r, k) rm)) _ e1 in
      record {
        queued = ground (arith, get?-insert_self (k, id) (who, (a, r)) s.currency_redeem_queue);
        of_user = ground (
          arith,
          get?-insert_self (who, k) u um,
          add_request-ids c.maximum_queue id a tt (get? (who, k) um) u user,
        );
        of_round = ground (
          arith,
          get?-insert_self (r, k) v rm,
          add_request-ids c.maximum_queue id a k (get? (r, k) rm) v round,
        );
        next = ground (arith, get?-insert_self k (id + 1) s.queue_next_id);
      }

  pub burn_and_enqueue-Filed :
      (who : AccountId) (pool_id : Types.PoolId) (v k : FungibleTokenId) (a b : Balance)
      (s s' : State c)
      → Redeem.burn_and_enqueue c who pool_id v k a b s ≡ ok s'
      → (r : StakingRound) × Filed who k b r s s'
  unfolding Redeem.burn_and_enqueue
  burn_and_enqueue-Filed who pool_id v k a b s s' e =
      let (now, at, e1) =
        >>=-eq_ok
          (ok_or (get? k s.current_staking_round) (module_error Types.no_current_staking_round)) _
          e in
      let (wait, for, e2) =
        >>=-eq_ok (ok_or (get? k s.unlock_duration) (module_error Types.unlock_duration_not_found))
          _ e1 in
      let (r, until, e3) = >>=-eq_ok (Redeem.calculate_next_staking_round wait now) _ e2 in
      let (l, burnt, e4) = >>=-eq_ok (c.withdraw v who a s.ledger) _ e3 in
      let (n, less, e5) =
        >>=-eq_ok
          (ok_or (checked_sub (get_or 0 pool_id s.pool_ledger) b)
            (module_error Types.arithmetic_overflow))
          _ e4 in
      let t = record s { ledger = l; pool_ledger = insert pool_id n s.pool_ledger } in
      let filed = enqueue-Filed who k b r t s' e5 in
      (
        r,
        record {
          queued = filed.queued;
          of_user = filed.of_user;
          of_round = filed.of_round;
          next = filed.next;
        },
      )
