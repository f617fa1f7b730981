-- ===== src/Economy/Solvency/Rewards.antt =====
-- pallets/economy/src/lib.rs: payouts and eras against the claims on the reserved balances.
use versus_project_metaverse.Prelude.{
  ◌≡◌, Option, none, some, List, [], ◌∷◌, ok, arith, nat_eq, saturating_add, u32_max, Outcome-cases,
  >>=-eq_ok, inl, inr,
}
use versus_project_metaverse.Prelude.Maps.{Map, get?}
use versus_project_metaverse.Primitives.{AccountId, Balance, BlockNumber, EraIndex, FungibleTokenId}
use versus_project_metaverse.Economy.Types
use versus_project_metaverse.Economy.Types.{Result}
use versus_project_metaverse.Economy.Claims.{IsLedger, claims, IsSolvent}
use versus_project_metaverse.Economy.Shares.{claim_rewards}
use versus_project_metaverse.Economy.Innovation.{
  Payout, pay_entry, pay_each, pay_pending, claim_reward,
}
use versus_project_metaverse.Economy.Eras.{
  accumulate_reward, handle_reward_distribution_to_reward_pool_every_era, update_current_era,
  on_initialize, update_era_config, get_era_index,
}
use versus_project_metaverse.Economy.Solvency.Innovation.{SameClaims, claim_rewards-SameClaims}

module _ (c : Types.Config) (laws : IsLedger c) where
  pay_entry-reserved :
      (who x : AccountId) (k : FungibleTokenId) (a : Balance) (l : c.Ledger)
      (events : List Types.Event) (r : Balance × c.Ledger × List Types.Event)
      → pay_entry c who k a l events ≡ ok r
      → c.reserved_balance x r.1 ≡ c.reserved_balance x l
  unfolding pay_entry
  pay_entry-reserved who x k a l events r e =
      elim (Outcome-cases (c.transfer k c.reward_payout_account who a l)) [
        | inl (l', sent) ↦
            ground (arith, sent, laws.transfer_reserved k c.reward_payout_account who x a l l' sent)
        | inr failed ↦ ground (arith, failed)
      ]

  pay_each-reserved :
      (who x : AccountId) (m : Map FungibleTokenId Balance) (l : c.Ledger)
      (events : List Types.Event) (p : Payout c)
      → pay_each c who m l events ≡ ok p
      → c.reserved_balance x p.ledger ≡ c.reserved_balance x l
  unfolding pay_each
  pay_each-reserved who x [] l events p e = ground arith
  pay_each-reserved who x ((k, a) ∷ m) l events p e =
      let (r, paid, e') = >>=-eq_ok (pay_entry c who k a l events) _ e in
      let (q, rest, e'') = >>=-eq_ok (pay_each c who m r.1 r.2) _ e' in
      ground (
        arith,
        e'',
        pay_entry-reserved who x k a l events r paid,
        pay_each-reserved who x m r.1 r.2 q rest,
      )

  pay_pending-IsSolvent :
      (who : AccountId) (o : Option (Map FungibleTokenId Balance)) (s s' : Types.State c)
      → pay_pending c who o s ≡ ok s'
      → IsSolvent s
      → IsSolvent s'
  unfolding pay_pending claims
  pay_pending-IsSolvent who none s s' e h x = ground (arith, h x)
  pay_pending-IsSolvent who (some m) s s' e h x =
      let (p, paid, e') = >>=-eq_ok (pay_each c who m s.ledger s.events) _ e in
      ground (arith, e', h x, pay_each-reserved who x m s.ledger s.events p paid)

  pub claim_reward-IsSolvent :
      (o : c.Origin) (s s' : Types.State c)
      → claim_reward c o s ≡ ok s'
      → IsSolvent s
      → IsSolvent s'
  unfolding claim_reward
  claim_reward-IsSolvent o s s' e h =
      let (who, signed, e') = >>=-eq_ok (c.ensure_signed o) _ e in
      let (t, claimed, e'') = >>=-eq_ok (claim_rewards c who s) _ e' in
      pay_pending-IsSolvent who (get? who t.pending_rewards) t s' e''
        (λ x. ground (arith, h x, claim_rewards-SameClaims c who s t x claimed))

module _ (c : Types.Config) where
  handle-SameClaims :
      (old new : EraIndex) (s s' : Types.State c) (x : AccountId)
      → handle_reward_distribution_to_reward_pool_every_era c old new s ≡ ok s'
      → SameClaims x s s'
  unfolding handle_reward_distribution_to_reward_pool_every_era accumulate_reward claims
  handle-SameClaims old new s s' x e = ground arith

  update_current_era-SameClaims :
      (era : EraIndex) (s s' : Types.State c) (x : AccountId)
      → update_current_era c era s ≡ ok s'
      → SameClaims x s s'
  unfolding update_current_era claims
  update_current_era-SameClaims era s s' x e =
      let new = saturating_add u32_max s.current_era era in
      let (t, handled, e') =
        >>=-eq_ok (handle_reward_distribution_to_reward_pool_every_era c s.current_era new s) _ e in
      ground (arith, handle-SameClaims s.current_era new s t x handled)

  pub on_initialize-SameClaims :
      (s s' : Types.State c) (x : AccountId) → on_initialize c s ≡ ok s' → SameClaims x s s'
  unfolding on_initialize
  on_initialize-SameClaims s s' x e =
      let era = get_era_index c s.block_number s in
      elim (Outcome-cases (update_current_era c era s)) [
        | inl (t, updated) ↦
            ground (arith, updated, update_current_era-SameClaims era s t x updated)
        | inr failed ↦ ground (arith, failed)
      ]

  pub update_era_config-SameClaims :
      (o : c.Origin) (last frequency : Option BlockNumber) (rate : Option Balance)
      (s s' : Types.State c) (x : AccountId)
      → update_era_config c o last frequency rate s ≡ ok s'
      → SameClaims x s s'
  unfolding update_era_config claims
  update_era_config-SameClaims o last frequency rate s s' x e = ground arith
