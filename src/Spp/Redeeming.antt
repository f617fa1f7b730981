-- ===== src/Spp/Redeeming.antt =====
-- pallets/spp/src/lib.rs: `redeem` in its two parts, and the books that it keeps.
use versus_project_metaverse.Prelude.{
  ◌≡◌, some, ok, arith, nat_eq, ok_or, module_error, checked_sub, >>=-eq_ok, Option-cases, inl, inr,
  refl, sym, subst, ok-injective, ap, ◌∙◌, unwrap_or,
}
use versus_project_metaverse.Prelude.Maps.{get?, get_or, insert}
use versus_project_metaverse.Primitives.{
  AccountId, Balance, FungibleTokenId, token_eq, token_beq_iff,
}
use versus_project_metaverse.Spp.Types
use versus_project_metaverse.Spp.Types.{Config, State, PoolId, PoolInfo, StakingRound}
use versus_project_metaverse.Spp.Pools.{collect_fee, exchange}
use versus_project_metaverse.Spp.Redeem
use versus_project_metaverse.Spp.Redeem.{charged, burn_and_enqueue}
use versus_project_metaverse.Spp.Filing.{Filed, burn_and_enqueue-Filed}
use versus_project_metaverse.Spp.Booking.{IsBooked, same-IsBooked, enqueue-IsBooked}

module _ (c : Config) where
  -- A successful `redeem` of a pool in the pool's currency, up to the burning, and from there on.
  pub record Parts (o : c.Origin) (pool_id : PoolId) (v : FungibleTokenId) (s s' : State c)
      : Type 0 where
    pub who : AccountId
    pub pool : PoolInfo c
    pub receipts : Balance
    pub ledger : c.Ledger
    pub amount : Balance
    pub between : State c
    pub signed : c.ensure_signed o ≡ ok who
    pub known : c.convert_to_currency v ≡ some pool.currency_id
    pub found : get? pool_id s.pool ≡ some pool
    pub burnt :
        Redeem.burn_and_enqueue c who pool_id v pool.currency_id receipts amount
          (record s { ledger = ledger })
        ≡ ok between
    pub reported : s' ≡ Types.deposit_event (Types.redeemed who pool_id receipts) between

  charged-Parts :
      (o : c.Origin) (pool_id : PoolId) (v : FungibleTokenId) (a : Balance) (who : AccountId)
      (p : PoolInfo c) (s s' : State c)
      → c.ensure_signed o ≡ ok who
      → c.convert_to_currency v ≡ some p.currency_id
      → get? pool_id s.pool ≡ some p
      → charged c who pool_id v p.currency_id a s ≡ ok s'
      → Parts o pool_id v s s'
  unfolding charged
  charged-Parts o pool_id v a who p s s' signed known found e =
      let k = p.currency_id in
      let ((b, l), paid, e1) = >>=-eq_ok (collect_fee c s.redeem_rate who v a s.ledger) _ e in
      let (n, exchanged, e2) =
        >>=-eq_ok (exchange b (get_or 0 k s.network_ledger) (c.total_issuance v l)) _ e1 in
      let (t, burnt, e3) =
        >>=-eq_ok (burn_and_enqueue c who pool_id v k b n (record s { ledger = l })) _ e2 in
      record {
        who = who;
        pool = p;
        receipts = b;
        ledger = l;
        amount = n;
        between = t;
        signed = signed;
        known = known;
        found = found;
        burnt = burnt;
        reported = sym (ok-injective e3);
      }

  pub redeem-Parts :
      (o : c.Origin) (pool_id : PoolId) (v : FungibleTokenId) (a : Balance) (s s' : State c)
      → Redeem.redeem c o pool_id v a s ≡ ok s'
      → Parts o pool_id v s s'
  unfolding Redeem.redeem
  redeem-Parts o pool_id v a s s' e =
      let (who, signed, _) = >>=-eq_ok (c.ensure_signed o) _ e in
      elim (Option-cases (c.convert_to_currency v)) [
        | inl unknown ↦ absurd (ground (arith, unknown))
        | inr (k, known) ↦ elim (Option-cases (get? pool_id s.pool)) [
          | inl missing ↦ absurd (ground (arith, known, missing))
          | inr (p, found) ↦
              let same : k ≡ p.currency_id =
                ground (arith, signed, known, found, token_beq_iff k p.currency_id) in
              charged-Parts o pool_id v a who p s s' signed (known ∙ ap some same) found
                (ground (arith, known, found, token_beq_iff k p.currency_id))
        ]
      ]

  burn_and_enqueue-IsBooked :
      (who : AccountId) (pool_id : Types.PoolId) (v k : FungibleTokenId) (a b : Balance)
      (s s' : State c)
      → Redeem.burn_and_enqueue c who pool_id v k a b s ≡ ok s'
      → IsBooked s
      → IsBooked s'
  unfolding Redeem.burn_and_enqueue
  burn_and_enqueue-IsBooked who pool_id v k a b s s' e h =
      let (now, at, e1) =
        >>=-eq_ok
          (ok_or (get? k s.current_staking_round) (module_error Types.no_current_staking_round)) _
          e in
      let (wait, for, e2) =
        >>=-eq_ok (ok_or (get? k s.unlock_duration) (module_error Types.unlock_duration_not_found))
          _ e1 in
      let (r, until, e3) = >>=-eq_ok (Redeem.calculate_next_staking_round wait now) _ e2 in
      let (l, burnt, e4) = >>=-eq_ok (c.withdraw v who a s.ledger) _ e3 in
      let (n, less, e5) =
        >>=-eq_ok
          (ok_or (checked_sub (get_or 0 pool_id s.pool_ledger) b)
            (module_error Types.arithmetic_overflow))
          _ e4 in
      let t = record s { ledger = l; pool_ledger = insert pool_id n s.pool_ledger } in
      enqueue-IsBooked c who k b r t s' e5 (same-IsBooked s t refl refl refl refl h)

  -- A successful `redeem` of the receipts of a currency files a request of its signer: an amount of
  -- that currency for some round, under the next id, which joins the ids of the user's requests and
  -- of the round's. The amounts booked for every user and round stay equal to what the queue of the
  -- currency holds for them.
  pub redeem-IsBooked :
      (o : c.Origin) (who : AccountId) (pool_id : PoolId) (v k : FungibleTokenId) (a : Balance)
      (s s' : State c)
      → c.ensure_signed o ≡ ok who
      → c.convert_to_currency v ≡ some k
      → Redeem.redeem c o pool_id v a s ≡ ok s'
      → IsBooked s
      → IsBooked s' × ((amount : Balance) × ((r : StakingRound) × Filed c who k amount r s s'))
  redeem-IsBooked o who pool_id v k a s s' signed known e h =
      let p = redeem-Parts o pool_id v a s s' e in
      let s1 = record s { ledger = p.ledger } in
      let booked =
        burn_and_enqueue-IsBooked p.who pool_id v p.pool.currency_id p.receipts p.amount s1
          p.between p.burnt (same-IsBooked s s1 refl refl refl refl h) in
      let (r, filed) =
        burn_and_enqueue-Filed c p.who pool_id v p.pool.currency_id p.receipts p.amount s1 p.between
          p.burnt in
      let moved : Filed c p.who p.pool.currency_id p.amount r s s' =
        subst (λ t. Filed c p.who p.pool.currency_id p.amount r s t) (sym p.reported)
          (record {
            queued = filed.queued;
            of_user = filed.of_user;
            of_round = filed.of_round;
            next = filed.next;
          }) in
      let same_currency : p.pool.currency_id ≡ k = ap (unwrap_or k) (sym p.known ∙ known) in
      let transported : Filed c who k p.amount r s s' =
        subst (λ x. Filed c x k p.amount r s s') (ok-injective (sym p.signed ∙ signed))
          (subst (λ j. Filed c p.who j p.amount r s s') same_currency moved) in
      (
        subst IsBooked (sym p.reported) (same-IsBooked p.between _ refl refl refl refl booked),
        (p.amount, (r, transported)),
      )
